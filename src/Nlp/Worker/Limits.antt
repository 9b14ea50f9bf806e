-- ===== src/Nlp/Worker/Limits.antt =====
-- The size of what load_text (services/nlp-pipeline/worker.py) returns.
use Prim.Native.String.{String}
use package.text.Mathlib.Text.{starts_with}
use signalchord.Prelude.{
  ℕ, ◌+◌, ◌≤◌, ◌≡◌, refl, true, false, Bool, Result, ok, err, ltb, length, if◌then◌else◌, arith,
  ◌>>=◌, bind-ok_inv, ok_injective, subst, ◌⊎◌, inl, inr,
}
use signalchord.Kafka.World.{Exn, Bytes}
use signalchord.Graph.Json.{Json, text, object, other}
use signalchord.Events.Values.{Runtime, get_item}
use signalchord.Nlp.Worker.Source.{
  Platform, max_text_bytes, inline_text, stored_text, text_at, text_from, load_text,
}

guard_inv :
    {B : Type 0} (c : Bool) (e : Exn) (r : Result Exn B) (b : B)
    → (if c then err e else r) ≡ ok b
    → (c ≡ false) × (r ≡ ok b)
guard_inv true e r b h = cc
guard_inv false e r b h = (refl, h)

le_of-ltb : (m n : ℕ) → ltb m n ≡ false → n ≤ m
le_of-ltb m n h = ground arith

module _ {A V : Type 0} (rt : Runtime A V) (pf : Platform A) where
  open pf use {encode_utf8, decode_utf8, read_object}

  -- A text of the event, or the decoding of an object that was read, of at most the bytes allowed.
  abbrev pub IsWithin : String → Type 0
  IsWithin s =
      (length (encode_utf8 s) ≤ max_text_bytes)
      ⊎ ((uri : String) × (body : Bytes) × (read_object uri (max_text_bytes + 1) ≡ ok body)
          × (length body ≤ max_text_bytes)
          × (decode_utf8 body ≡ ok s))

  inline_text-IsWithin : (inline s : String) → inline_text rt pf inline ≡ ok s → IsWithin s
  inline_text-IsWithin inline s h =
      let (fits, same) = guard_inv (ltb max_text_bytes (length (encode_utf8 inline))) _ _ s h in
      inl (
        subst (λ t. length (encode_utf8 t) ≤ max_text_bytes) (ok_injective _ _ same)
          (le_of-ltb max_text_bytes (length (encode_utf8 inline)) fits))

  stored_text-IsWithin : (uri s : String) → stored_text rt pf uri ≡ ok s → IsWithin s
  stored_text-IsWithin uri s h =
      let (body, read, h₁) = bind-ok_inv (read_object uri (max_text_bytes + 1)) _ s h in
      let (fits, decoded) = guard_inv (ltb max_text_bytes (length body)) _ _ s h₁ in
      inr (uri, body, read, le_of-ltb max_text_bytes (length body) fits, decoded)

  flipped_inv :
      {B : Type 0} (c : Bool) (r : Result Exn B) (e : Exn) (b : B)
      → (if c then r else err e) ≡ ok b
      → r ≡ ok b
  flipped_inv true r e b h = h
  flipped_inv false r e b h = cc

  text_at-IsWithin : (v : Json A) (s : String) → text_at rt pf v ≡ ok s → IsWithin s
  text_at-IsWithin (text uri) s h =
      stored_text-IsWithin uri s (flipped_inv (starts_with uri "s3://") _ _ s h)
  text_at-IsWithin (object d) s h = cc
  text_at-IsWithin (other a) s h = cc

  found-IsWithin :
      (payload : Json A) (s : String)
      → (get_item "clean_text_object_uri" (other rt.null) payload >>= text_at rt pf) ≡ ok s
      → IsWithin s
  found-IsWithin payload s h =
      let (uri, _, h₁) =
        bind-ok_inv (get_item "clean_text_object_uri" (other rt.null) payload) _ s h in
      text_at-IsWithin uri s h₁

  text_from-IsWithin :
      (payload v : Json A) (s : String) → text_from rt pf payload v ≡ ok s → IsWithin s
  text_from-IsWithin payload (text inline) s h = inline_text-IsWithin inline s h
  text_from-IsWithin payload (object d) s h = found-IsWithin payload s h
  text_from-IsWithin payload (other a) s h = found-IsWithin payload s h

  -- The text that load_text returns takes at most the bytes allowed: as UTF-8, if the event carries
  -- it; else in the object storage, from which one byte more than that was asked for.
  pub load_text-IsWithin :
      (payload : Json A) (s : String) → load_text rt pf payload ≡ ok s → IsWithin s
  unfolding load_text
  load_text-IsWithin payload s h =
      let (v, _, h₁) = bind-ok_inv (get_item "text" (other rt.null) payload) _ s h in
      text_from-IsWithin payload v s h₁
