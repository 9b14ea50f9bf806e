-- ===== src/Claims/Cluster.antt =====
-- services/claim-intelligence/engine.py. `casefold`, the white space of `\s`, `strip` and `split`,
-- which know all of Unicode, and the hex digest of SHA-256 are parameters.
use Prim.Native.Char.{Char}
use Prim.Native.String.{String, ◌++◌}
use signalchord.Prelude.{
  Bool, true, false, ◌||◌, ◌&&◌, List, [], ◌∷◌, ◌=ˢ◌, contains, if◌then◌else◌,
}
use signalchord.Entities.Slug.{is_word}
use signalchord.Kafka.Envelope.{prefix}

pub record ClusteredClaim : Type 0 where
  pub cluster_id : String
  pub normalized_proposition : String
  pub stance : String

abbrev pub one : Char → String
one c = String.◌∷◌ c String.[]

module _ (casefold hex_digest : String → String) (is_space : Char → Bool) where
  -- `re.sub(r"[^a-z0-9\s]", " ", s)`
  unfoldable pub blank_out : String → String
  blank_out String.[] = String.[]
  blank_out (String.◌∷◌ c s) =
      if is_word c || is_space c then String.◌∷◌ c (blank_out s) else String.◌∷◌ " " (blank_out s)

  -- `re.sub(r"\s+", " ", s)`; the Boolean says that a run has been replaced
  unfoldable pub squeeze : Bool → String → String
  squeeze in_run String.[] = String.[]
  squeeze in_run (String.◌∷◌ c s) =
      let run = squeeze true s in
      let here = squeeze false s in
      if is_space c then (if in_run then run else String.◌∷◌ " " run) else String.◌∷◌ c here

  -- `s.strip()`, from the left and from the right
  unfoldable pub lstrip : String → String
  lstrip String.[] = String.[]
  lstrip (String.◌∷◌ c s) = let rest = lstrip s in if is_space c then rest else String.◌∷◌ c s

  unfoldable pub rstrip : String → String
  rstrip String.[] = String.[]
  rstrip (String.◌∷◌ c s) =
      let rest = rstrip s in if is_space c && (rest =ˢ "") then String.[] else String.◌∷◌ c rest

  unfoldable pub normalize_claim : String → String
  unfolding blank_out squeeze lstrip rstrip
  normalize_claim proposition = rstrip (lstrip (squeeze false (blank_out (casefold proposition))))

  -- a token of `s.split()` that is not empty is kept
  abbrev keep : String → List String → List String
  keep token tokens = if token =ˢ "" then tokens else token ∷ tokens

  -- `s.split()`; the token so far has been read
  unfoldable pub tokens_from : String → String → List String
  tokens_from token String.[] = keep token []
  tokens_from token (String.◌∷◌ c s) =
      let next = tokens_from "" s in
      let longer = tokens_from (token ++ one c) s in if is_space c then keep token next else longer

  abbrev negative_tokens : List String
  negative_tokens = "denied" ∷ "not" ∷ "never" ∷ "no" ∷ []

  abbrev meets : List String → Bool
  meets [] = false
  meets (t ∷ ts) = contains negative_tokens t || meets ts

  unfoldable pub cluster_claim : String → ClusteredClaim
  unfolding normalize_claim tokens_from
  cluster_claim proposition =
      let normalized = normalize_claim proposition in
      record {
        cluster_id = "claim-cluster:" ++ prefix 24 (hex_digest normalized);
        normalized_proposition = normalized;
        stance = if meets (tokens_from "" normalized) then "negative" else "positive";
      }
