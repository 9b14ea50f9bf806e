-- ===== src/Entities/Resolve.antt =====
-- services/entity-resolution/resolver.py: resolve and resolve_mention.
use Prim.Native.String.{String, ◌++◌}
use signalchord.Prelude.{
  ℕ, ◌≡◌, refl, Bool, true, false, not, ◌||◌, Option, none, some, List, [], ◌∷◌, Dict, lookup,
  Result, ok, err, ◌>>=◌, if◌then◌else◌, bind-ok_inv, ok_injective, subst,
}
use signalchord.Kafka.World.{Exn}
use signalchord.Kafka.Envelope.{prefix}
use signalchord.Graph.Json.{Json, text, object, other, Fields, get}
use signalchord.Events.Values.{attribute_error, key_error, type_error, value_error}
use signalchord.Entities.Slug.{slug}

abbrev pub default_aliases : Dict String
default_aliases =
    ("acme corporation", "company:acme")
    ∷ ("northstar labs", "organization:northstar-labs")
    ∷ ("berlin", "location:berlin")
    ∷ []

-- the score of a candidate is always 1 here
pub record Candidate : Type 0 where
  pub entity_id : String
  pub display_name : String
  pub reasons : List String

pub record Resolution : Type 0 where
  pub mention_id : String
  pub accepted_entity_id : Option String
  pub candidates : List Candidate
  pub requires_review : Bool

pub record Resolved (A F : Type 0) : Type 0 where
  pub mention_id : String
  pub document_id : A
  pub entity_id : String
  pub entity_type : A
  pub display_name : String
  pub confidence : F
  pub status : String
  pub requires_review : Bool
  pub alternatives : List Candidate
  pub evidence : A
  pub extraction_model : Option A
  pub extraction_version : Option A

-- `payload[key]`
abbrev pub required : {A : Type 0} → String → Fields A → Result Exn (Json A)
required key d = elim (get key d) [ none ↦ err (key_error key) | some v ↦ ok v ]

-- a value where only a str does
abbrev pub as_str : {A : Type 0} → Exn → Json A → Result Exn String
as_str e (text s) = ok s
as_str e (object d) = err e
as_str e (other a) = err e

abbrev pub accepted_as : String → String → Option String → Resolution
accepted_as mention_id mention none = record {
  mention_id = mention_id;
  accepted_entity_id = none;
  candidates = [];
  requires_review = true;
}
accepted_as mention_id mention (some entity_id) = record {
  mention_id = mention_id;
  accepted_entity_id = some entity_id;
  candidates =
      record {
        entity_id = entity_id;
        display_name = mention;
        reasons = "exact normalized alias" ∷ [];
      }
      ∷ [];
  requires_review = false;
}

-- `aliases or DEFAULT_ALIASES`
abbrev pub aliases_or_default : Option (Dict String) → Dict String
aliases_or_default none = default_aliases
aliases_or_default (some []) = default_aliases
aliases_or_default (some (a ∷ aliases)) = a ∷ aliases

-- `squeeze` is `" ".join(s.split())`; `hundredths n` is the float that the source writes as n/100,
-- and `float_le x y` is `y >= x`.
module _ {F : Type 0} (casefold squeeze hex_digest : String → String) (zero_float : F)
    (hundredths : ℕ → F) (float_le : F → F → Bool) where
  unfoldable pub resolve : String → String → Dict String → Resolution
  resolve mention_id mention aliases =
      accepted_as mention_id mention (lookup (squeeze (casefold mention)) aliases)

  -- the identifier, the status and the review flag, where the entity type is a text
  abbrev pub decide_text : String → String → F → Option String → String × String × Bool
  decide_text mention entity_type confidence (some accepted) = (accepted, "model_verified", false)
  decide_text mention entity_type confidence none =
      if float_le (hundredths 90) confidence
      then (
        casefold entity_type ++ (":" ++ slug casefold hex_digest mention),
        "model_verified",
        false,
      )
      else (
        "candidate:" ++ prefix 24 (hex_digest (entity_type ++ (":" ++ mention))),
        "candidate",
        true,
      )

  -- Another entity type has no `casefold`, and cannot be added to a text, but is of no account where
  -- an alias fits.
  abbrev pub decide_other : F → Option String → Result Exn (String × String × Bool)
  decide_other confidence (some accepted) = ok (accepted, "model_verified", false)
  decide_other confidence none =
      if float_le (hundredths 90) confidence then err attribute_error else err type_error

  abbrev pub decide :
      {A : Type 0} → String → Json A → F → Option String → Result Exn (String × String × Bool)
  decide mention (text entity_type) confidence accepted =
      ok (decide_text mention entity_type confidence accepted)
  decide mention (object d) confidence accepted = decide_other confidence accepted
  decide mention (other a) confidence accepted = decide_other confidence accepted

  -- `float(payload.get("confidence", 0))`
  abbrev pub confidence_of : {A : Type 0} → (Json A → Result Exn F) → Option (Json A) → Result Exn F
  confidence_of float_of none = ok zero_float
  confidence_of float_of (some v) = float_of v

  -- Pydantic refuses a mention_id that is no str, by a ValueError.
  unfoldable pub resolve_mention :
      {A : Type 0}
      → (Json A → Result Exn F)
      → Fields A
      → Option (Dict String)
      → Result Exn (Resolved (Json A) F)
  unfolding resolve
  resolve_mention float_of payload aliases = do
    mention_value ← required "mention_id" payload
    text_value ← required "text" payload
    entity_type ← required "entity_type" payload
    confidence ← confidence_of float_of (get "confidence" payload)
    mention ← as_str attribute_error text_value
    mention_id ← as_str (value_error "mention_id") mention_value
    let result = resolve mention_id mention (aliases_or_default aliases)
    decision ← decide mention entity_type confidence result.accepted_entity_id
    document_id ← required "document_id" payload
    evidence ← required "evidence" payload
    ok (record {
      mention_id = mention_id;
      document_id = document_id;
      entity_id = decision.0;
      entity_type = entity_type;
      display_name = mention;
      confidence = confidence;
      status = decision.1;
      requires_review = decision.2;
      alternatives = result.candidates;
      evidence = evidence;
      extraction_model = get "extraction_model" payload;
      extraction_version = get "extraction_version" payload;
    })

  abbrev pub is_known : Option String → Bool
  is_known none = false
  is_known (some id) = true

  -- an alias fits, or the confidence is at least 0.9
  abbrev pub is_sure : {A : Type 0} → Resolved A F → Option (Dict String) → Bool
  is_sure r aliases =
      is_known (lookup (squeeze (casefold r.display_name)) (aliases_or_default aliases))
      || float_le (hundredths 90) r.confidence

  -- the flag and the status agree with whether the mention is sure
  abbrev pub IsFlagged : {A : Type 0} → Resolved A F → Bool → Type 0
  IsFlagged r sure =
      (r.requires_review ≡ not sure) × (r.status ≡ (if sure then "model_verified" else "candidate"))

  -- what a decision says of a mention, from the alias found and the confidence
  abbrev IsDecided : F → Option String → String × String × Bool → Type 0
  IsDecided c o d =
      let sure = is_known o || float_le (hundredths 90) c in
      (d.2 ≡ not sure) × (d.1 ≡ (if sure then "model_verified" else "candidate"))

  text-IsDecided :
      (mention entity_type mention_id : String) (c : F) (o : Option String) (b : Bool)
      → float_le (hundredths 90) c ≡ b
      → IsDecided c o
          (decide_text mention entity_type c (accepted_as mention_id mention o).accepted_entity_id)
  text-IsDecided mention entity_type mention_id c (some id) b e = (refl, refl)
  text-IsDecided mention entity_type mention_id c none true e = rw e (refl, refl)
  text-IsDecided mention entity_type mention_id c none false e = rw e (refl, refl)

  raising-IsDecided :
      (b : Bool) (c : F) (d : String × String × Bool)
      → (if b then err attribute_error else err type_error) ≡ ok d
      → IsDecided c none d
  raising-IsDecided true c d h = cc
  raising-IsDecided false c d h = cc

  other-IsDecided :
      (mention mention_id : String) (c : F) (o : Option String) (d : String × String × Bool)
      → decide_other c (accepted_as mention_id mention o).accepted_entity_id ≡ ok d
      → IsDecided c o d
  other-IsDecided mention mention_id c (some id) d h =
      subst (IsDecided c (some id)) (ok_injective _ d h) (refl, refl)
  other-IsDecided mention mention_id c none d h =
      raising-IsDecided (float_le (hundredths 90) c) c d h

  decide-IsDecided :
      {A : Type 0} (mention mention_id : String) (kind : Json A) (c : F) (o : Option String)
      (d : String × String × Bool)
      → decide mention kind c (accepted_as mention_id mention o).accepted_entity_id ≡ ok d
      → IsDecided c o d
  decide-IsDecided mention mention_id (text s) c o d h =
      subst (IsDecided c o) (ok_injective _ d h) (text-IsDecided mention s mention_id c o _ refl)
  decide-IsDecided mention mention_id (object x) c o d h =
      other-IsDecided mention mention_id c o d h
  decide-IsDecided mention mention_id (other x) c o d h = other-IsDecided mention mention_id c o d h

  -- A resolved mention goes to review, as a candidate, exactly if no alias fits its normalized text
  -- and its confidence is not at least 0.9; else its status is model_verified.
  pub resolve_mention-IsFlagged :
      {A : Type 0} (float_of : Json A → Result Exn F) (payload : Fields A)
      (aliases : Option (Dict String)) (r : Resolved (Json A) F)
      → resolve_mention float_of payload aliases ≡ ok r
      → IsFlagged r (is_sure r aliases)
  unfolding resolve_mention resolve
  resolve_mention-IsFlagged float_of payload aliases r h =
      let (mention_value, _, h₁) = bind-ok_inv (required "mention_id" payload) _ r h in
      let (text_value, _, h₂) = bind-ok_inv (required "text" payload) _ r h₁ in
      let (kind, _, h₃) = bind-ok_inv (required "entity_type" payload) _ r h₂ in
      let (c, _, h₄) = bind-ok_inv (confidence_of float_of (get "confidence" payload)) _ r h₃ in
      let (mention, _, h₅) = bind-ok_inv (as_str attribute_error text_value) _ r h₄ in
      let (mention_id, _, h₆) =
        bind-ok_inv (as_str (value_error "mention_id") mention_value) _ r h₅ in
      let o = lookup (squeeze (casefold mention)) (aliases_or_default aliases) in
      let (d, e, h₇) =
        bind-ok_inv (decide mention kind c (accepted_as mention_id mention o).accepted_entity_id) _
          r h₆ in
      let (_, _, h₈) = bind-ok_inv (required "document_id" payload) _ r h₇ in
      let (_, _, h₉) = bind-ok_inv (required "evidence" payload) _ r h₈ in
      subst (λ s. IsFlagged s (is_sure s aliases)) (ok_injective _ _ h₉)
        (decide-IsDecided mention mention_id kind c o d e)
