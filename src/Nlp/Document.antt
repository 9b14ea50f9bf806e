-- ===== src/Nlp/Document.antt =====
-- services/nlp-pipeline/app.py: the models, evidence and stance. Floats that the source writes as
-- literals are hundredths.
use Prim.Native.String.{String, ◌++◌}
use text.Mathlib.Text.{find?}
use signalchord.Prelude.{
  ℕ, zero, suc, ◌-◌, Bool, true, false, ◌||◌, none, some, List, [], ◌∷◌, ◌=ˢ◌, contains,
  if◌then◌else◌,
}
use signalchord.Kafka.Envelope.{prefix}
use signalchord.Graph.Letters.{is_letter}

pub record Evidence : Type 0 where
  pub evidence_id : String
  pub document_id : String
  pub start_offset : ℕ
  pub end_offset : ℕ
  pub span_hash : String

pub record Mention : Type 0 where
  pub mention_id : String
  pub text : String
  pub entity_type : String
  pub confidence : ℕ
  pub evidence : Evidence

pub record Claim : Type 0 where
  pub claim_id : String
  pub proposition : String
  pub stance : String
  pub confidence : ℕ
  pub evidence : Evidence

pub record Relation : Type 0 where
  pub relationship_id : String
  pub subject_mention_id : String
  pub predicate : String
  pub object_mention_id : String
  pub confidence : ℕ
  pub evidence : Evidence

-- The compiled regular expressions, by name.
pub data Pattern : Type 0 where
  company agency organization location person claim sentence : Pattern

-- Python's text functions, which know all of Unicode, SHA-256, and the spans that `finditer` gives,
-- from the left.
pub record Language : Type 0 where
  pub casefold : String → String
  pub strip : String → String
  pub join_split : String → String
  pub hex_digest : String → String
  pub show : ℕ → String
  pub finditer : Pattern → String → List (ℕ × ℕ)

-- `s[start:end]`
abbrev pub drop_chars : ℕ → String → String
drop_chars zero s = s
drop_chars (suc n) String.[] = String.[]
drop_chars (suc n) (String.◌∷◌ c s) = drop_chars n s

abbrev pub slice : String → ℕ → ℕ → String
slice s start end = prefix (end - start) (drop_chars start s)

-- `part in s`
abbrev pub is_in : String → String → Bool
is_in part s = elim (find? s part) [ none ↦ false | some i ↦ true ]

-- `any(keyword in s for keyword in keywords)`
abbrev pub any_in : List String → String → Bool
any_in [] s = false
any_in (k ∷ ks) s = is_in k s || any_in ks s

abbrev pub negative : List String
negative = "denied" ∷ "not" ∷ "never" ∷ "no" ∷ "warned" ∷ "failed" ∷ []

abbrev pub positive : List String
positive = "confirmed" ∷ "agreed" ∷ "announced" ∷ "expects" ∷ "plans" ∷ []

abbrev pub meets : List String → List String → Bool
meets set [] = false
meets set (t ∷ ts) = contains set t || meets set ts

abbrev keep_token : String → List String → List String
keep_token token tokens = if token =ˢ "" then tokens else token ∷ tokens

-- `re.findall(r"[a-z]+", s)`; the run so far has been read
unfoldable pub letter_runs : String → String → List String
letter_runs run String.[] = keep_token run []
letter_runs run (String.◌∷◌ c s) =
    let longer = letter_runs (run ++ String.◌∷◌ c String.[]) s in
    let next = letter_runs "" s in if is_letter c then longer else keep_token run next

module _ (lang : Language) where
  open lang use {casefold, hex_digest, show}

  unfoldable pub evidence : String → String → ℕ → ℕ → Evidence
  evidence document_id text start end = record {
    evidence_id = "ev:" ++ (document_id ++ (":" ++ (show start ++ (":" ++ show end))));
    document_id = document_id;
    start_offset = start;
    end_offset = end;
    span_hash = hex_digest (slice text start end);
  }

  unfoldable pub stance : String → String
  unfolding letter_runs
  stance text =
      let tokens = letter_runs "" (casefold text) in
      if meets negative tokens
      then "negative"
      else if meets positive tokens
      then "positive"
      else "neutral"
