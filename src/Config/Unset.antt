-- ===== src/Config/Unset.antt =====
-- services/python_common/production_config.py: what _check_neo4j makes of a password that is not
-- set.
use text.Mathlib.TextEquality.{eq_iff}
use signalchord.Prelude.{
  ◌≡◌, refl, sym, ap, ◌∙◌, String, Bool, true, false, ◌&&◌, none, some, [], ◌∷◌, lookup, ◌=ˢ◌,
  if◌then◌else◌, arith,
}
use signalchord.Config.Env.{Env, get_or_empty, TextLibrary}
use signalchord.Config.Check.{check_neo4j}
use signalchord.Config.Secure.{passes, is_neo4j_secure, passes-check_neo4j}

-- the environment without a variable
abbrev pub unset : String → Env → Env
unset key [] = []
unset key ((k, v) ∷ env) = if k =ˢ key then unset key env else (k, v) ∷ unset key env

pub lookup-unset_self : (key : String) (env : Env) → lookup key (unset key env) ≡ none
lookup-unset_self key [] = refl
lookup-unset_self key ((k, v) ∷ env) = ground (arith, lookup-unset_self key env)

pub lookup-unset :
    (key other : String) (env : Env)
    → (key =ˢ other) ≡ false
    → lookup other (unset key env) ≡ lookup other env
lookup-unset key other [] h = refl
lookup-unset key other ((k, v) ∷ env) h =
    ground (arith, eq_iff k key, eq_iff k other, eq_iff key other, lookup-unset key other env h)

get_or_empty-unset :
    (key other : String) (env : Env)
    → (key =ˢ other) ≡ false
    → get_or_empty (unset key env) other ≡ get_or_empty env other
get_or_empty-unset key other env h =
    ap (λ o. elim o as (λ _. String) [ none ↦ "" | some v ↦ v ]) (lookup-unset key other env h)

module _ (py : TextLibrary) where
  drop_last : (a b c d : Bool) → d ≡ true → (a && (b && c)) ≡ true → (a && (b && d)) ≡ true
  drop_last a b c d h k = ground arith

  is_neo4j_secure-unset :
      (env : Env)
      → is_neo4j_secure py env ≡ true
      → is_neo4j_secure py (unset "NEO4J_PASSWORD" env) ≡ true
  is_neo4j_secure-unset env h =
      rw
        (
          get_or_empty-unset "NEO4J_PASSWORD" "NEO4J_URI" env refl,
          lookup-unset_self "NEO4J_PASSWORD" env,
        )
        (drop_last _ _ _ true refl h)

  -- An environment that _check_neo4j lets through is let through without NEO4J_PASSWORD too: the
  -- check does not notice that the password is not set at all.
  pub check_neo4j-unset :
      (env : Env)
      → passes (check_neo4j py env) ≡ true
      → passes (check_neo4j py (unset "NEO4J_PASSWORD" env)) ≡ true
  check_neo4j-unset env h =
      passes-check_neo4j py (unset "NEO4J_PASSWORD" env)
      ∙ is_neo4j_secure-unset env (sym (passes-check_neo4j py env) ∙ h)
