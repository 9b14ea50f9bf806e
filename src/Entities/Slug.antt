-- ===== src/Entities/Slug.antt =====
-- services/entity-resolution/resolver.py: slug. `casefold`, which knows all of Unicode, and the hex
-- digest of SHA-256 are parameters.
use Prim.Native.Char.{Char}
use Prim.Native.String.{String}
use signalchord.Prelude.{
  ℕ, zero, suc, ◌≡◌, refl, Bool, true, false, not, ◌&&◌, ◌||◌, ◌=ˢ◌, str_ltb, if◌then◌else◌,
}
use signalchord.Kafka.Envelope.{prefix}

abbrev one : Char → String
one c = String.◌∷◌ c String.[]

-- `[a-z0-9]`
abbrev pub is_word : Char → Bool
is_word c =
    (not (str_ltb (one c) "a") && not (str_ltb "z" (one c)))
    || (not (str_ltb (one c) "0") && not (str_ltb "9" (one c)))

abbrev pub is_dash : Char → Bool
is_dash c = one c =ˢ "-"

abbrev pub dash : String → String
dash s = String.◌∷◌ "-" s

-- `re.sub(r"[^a-z0-9]+", "-", s)`; the Boolean says that a run is being replaced
unfoldable pub squash : Bool → String → String
squash in_run String.[] = String.[]
squash in_run (String.◌∷◌ c s) =
    let here = squash false s in
    let run = squash true s in
    if is_word c then String.◌∷◌ c here else if in_run then run else dash run

-- `s.strip("-")`, from the left and from the right
unfoldable pub strip_left : String → String
strip_left String.[] = String.[]
strip_left (String.◌∷◌ c s) = let rest = strip_left s in if is_dash c then rest else String.◌∷◌ c s

unfoldable pub strip_right : String → String
strip_right String.[] = String.[]
strip_right (String.◌∷◌ c s) =
    let rest = strip_right s in if is_dash c && (rest =ˢ "") then String.[] else String.◌∷◌ c rest

module _ (casefold hex_digest : String → String) where
  abbrev pub cleaned : String → String
  cleaned value = strip_right (strip_left (squash false (casefold value)))

  unfoldable pub slug : String → String
  slug value =
      if prefix 96 (cleaned value) =ˢ ""
      then prefix 24 (hex_digest value)
      else prefix 96 (cleaned value)

-- every character is a lower case letter, a digit or a dash
abbrev pub is_plain : String → Bool
is_plain String.[] = true
is_plain (String.◌∷◌ c s) = (is_word c || is_dash c) && is_plain s

squash_cases :
    (in_run b : Bool) (c : Char) (here run : String)
    → is_word c ≡ b
    → is_plain here ≡ true
    → is_plain run ≡ true
    → is_plain (if b then String.◌∷◌ c here else if in_run then run else dash run) ≡ true
squash_cases in_run true c here run e h k = rw (e, h) refl
squash_cases true false c here run e h k = k
squash_cases false false c here run e h k = k

squash-is_plain : (in_run : Bool) (s : String) → is_plain (squash in_run s) ≡ true
unfolding squash
squash-is_plain in_run String.[] = refl
squash-is_plain in_run (String.◌∷◌ c s) =
    squash_cases in_run (is_word c) c (squash false s) (squash true s) refl
      (squash-is_plain false s) (squash-is_plain true s)

both : (a b : Bool) → (a && b) ≡ true → (a ≡ true) × (b ≡ true)
both true true h = (refl, refl)
both true false h = cc
both false b h = cc

is_plain-cons :
    (c : Char) (s : String)
    → is_plain (String.◌∷◌ c s) ≡ true
    → ((is_word c || is_dash c) ≡ true) × (is_plain s ≡ true)
is_plain-cons c s h = both (is_word c || is_dash c) (is_plain s) h

is_plain-if :
    (b : Bool) (s t : String)
    → is_plain s ≡ true
    → is_plain t ≡ true
    → is_plain (if b then s else t) ≡ true
is_plain-if true s t h k = h
is_plain-if false s t h k = k

strip_left-is_plain : (s : String) → is_plain s ≡ true → is_plain (strip_left s) ≡ true
unfolding strip_left
strip_left-is_plain String.[] h = refl
strip_left-is_plain (String.◌∷◌ c s) h =
    is_plain-if (is_dash c) (strip_left s) (String.◌∷◌ c s)
      (strip_left-is_plain s (is_plain-cons c s h).1) h

strip_right-is_plain : (s : String) → is_plain s ≡ true → is_plain (strip_right s) ≡ true
unfolding strip_right
strip_right-is_plain String.[] h = refl
strip_right-is_plain (String.◌∷◌ c s) h =
    let (a, b) = is_plain-cons c s h in
    is_plain-if (is_dash c && (strip_right s =ˢ "")) String.[] (String.◌∷◌ c (strip_right s)) refl
      (rw (a, strip_right-is_plain s b) refl)

prefix-is_plain : (n : ℕ) (s : String) → is_plain s ≡ true → is_plain (prefix n s) ≡ true
unfolding prefix
prefix-is_plain zero s h = refl
prefix-is_plain (suc n) String.[] h = refl
prefix-is_plain (suc n) (String.◌∷◌ c s) h =
    let (a, b) = is_plain-cons c s h in rw (a, prefix-is_plain n s b) refl

module _ (casefold hex_digest : String → String) where
  -- A slug has only lower case letters, digits and dashes, for any text, if a digest has only such.
  pub slug-is_plain :
      ((s : String) → is_plain (hex_digest s) ≡ true)
      → (value : String) → is_plain (slug casefold hex_digest value) ≡ true
  unfolding slug
  slug-is_plain hex value =
      let s = cleaned casefold hex_digest value in
      is_plain-if (prefix 96 s =ˢ "") (prefix 24 (hex_digest value)) (prefix 96 s)
        (prefix-is_plain 24 (hex_digest value) (hex value))
        (prefix-is_plain 96 s (
          strip_right-is_plain (strip_left (squash false (casefold value))) (
            strip_left-is_plain (squash false (casefold value))
              (squash-is_plain false (casefold value)))))
