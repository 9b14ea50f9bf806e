-- ===== src/Config/Env.antt =====
-- The environment of a process, and the texts that services/python_common/production_config.py
-- reads in it.
use Prim.Native.String.{String, ◌++◌}
use text.Mathlib.Text.{find?}
use signalchord.Prelude.{
  Bool, true, false, Option, none, some, List, [], ◌∷◌, Dict, lookup, ◌=ˢ◌, contains, if◌then◌else◌,
  Result, ok, ◌>>=◌,
}

abbrev pub Env : Type 0
Env = Dict String

-- `env.get(key, "")`
abbrev pub get_or_empty : Env → String → String
get_or_empty env key = elim (lookup key env) [ none ↦ "" | some value ↦ value ]

-- `not value`, for a str or None
abbrev pub is_missing : Option String → Bool
is_missing none = true
is_missing (some value) = value =ˢ ""

-- what `urlparse` finds
pub record ParsedUrl : Type 0 where
  pub scheme : String
  pub hostname : Option String

-- Python's `strip()`, `strip("[]")`, `lower()` and `urlparse`, which know all of Unicode. `urlparse`
-- raises a ValueError, whose text is the error, on a URL whose brackets do not fit.
pub record TextLibrary : Type 0 where
  pub strip : String → String
  pub strip_brackets : String → String
  pub lower : String → String
  pub urlparse : String → Result String ParsedUrl

module _ (cut : String) where
  -- one more character in front of the first piece
  abbrev prepend : String → List String → List String
  prepend c [] = c ∷ []
  prepend c (s ∷ rest) = (c ++ s) ∷ rest

  -- `value.split(cut)`, where `cut` is one character
  unfoldable pub split : String → List String
  split String.[] = "" ∷ []
  split (String.◌∷◌ c s) =
      let rest = split s in
      if String.◌∷◌ c String.[] =ˢ cut then "" ∷ rest else prepend (String.◌∷◌ c String.[]) rest

-- `pieces[0]`, where `split` gives at least one
abbrev pub first_piece : List String → String
first_piece [] = ""
first_piece (s ∷ rest) = s

module _ (py : TextLibrary) where
  -- _truthy
  unfoldable pub truthy : Option String → Bool
  truthy none = py.lower (py.strip "") =ˢ "true"
  truthy (some value) = py.lower (py.strip value) =ˢ "true"

  -- `"://" in value`
  abbrev has_scheme : String → Bool
  has_scheme value = elim (find? value "://") [ none ↦ false | some i ↦ true ]

  -- `parsed.hostname or value.split(":", 1)[0]`
  abbrev host_of : Option String → String → String
  host_of none value = first_piece (split ":" value)
  host_of (some h) value = if h =ˢ "" then first_piece (split ":" value) else h

  abbrev local_hosts : List String
  local_hosts = "localhost" ∷ "127.0.0.1" ∷ "0.0.0.0" ∷ "::1" ∷ "::" ∷ []

  -- _is_local_url_or_host
  unfoldable pub is_local_url_or_host : String → Result String Bool
  unfolding split
  is_local_url_or_host value = do
    parsed ← py.urlparse (if has_scheme value then value else "scheme://" ++ value)
    ok (contains local_hosts (py.lower (py.strip_brackets (host_of parsed.hostname value))))
