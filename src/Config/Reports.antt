-- ===== src/Config/Reports.antt =====
-- validate_production_config (services/python_common/production_config.py): when it lets a worker
-- start, and which requirements its error names.
use signalchord.Prelude.{
  ◌≡◌, refl, ap, ◌∙◌, String, Bool, true, false, not, ◌&&◌, ◌||◌, Option, none, some, List, [], ◌∷◌,
  lookup, if◌then◌else◌, Result, ok, err, ◌>>=◌,
}
use signalchord.Config.Env.{Env, TextLibrary}
use signalchord.Config.Check.{Checked}
use signalchord.Config.Validate.{
  ConfigError, checks, add_error, run_check, collect_errors, raise_errors, chosen, is_production,
  validate_production_config,
}
use signalchord.Config.Secure.{is_secure, answer, answer-checks, passes}

abbrev pub starts : Result ConfigError (Unit {0}) → Bool
starts (ok _) = true
starts (err e) = false

module _ (py : TextLibrary) where
  -- every requirement of the list is met
  abbrev pub is_all_secure : Env → List String → Bool
  is_all_secure env [] = true
  is_all_secure env (r ∷ rs) = is_secure py r env && is_all_secure env rs

  starts-add_error :
      (r : String) (c : Checked) (errors : List (String × String))
      → starts (raise_errors py (add_error py r c errors))
        ≡ passes c && starts (raise_errors py errors)
  starts-add_error r (ok _) errors = refl
  starts-add_error r (err text) errors = refl

  &&-false : (b : Bool) → false ≡ b && false
  &&-false true = refl
  &&-false false = refl

  starts-run_check :
      (env : Env) (r : String) (o : Option (Env → Checked))
      (rest : Result ConfigError (List (String × String)))
      → starts (run_check py env r o rest >>= raise_errors py)
        ≡ answer py env o && starts (rest >>= raise_errors py)
  starts-run_check env r none rest = refl
  starts-run_check env r (some check) (ok errors) = starts-add_error r (check env) errors
  starts-run_check env r (some check) (err e) = &&-false (passes (check env))

  starts-collect_errors :
      (env : Env) (rs : List String)
      → starts (collect_errors py env rs >>= raise_errors py) ≡ is_all_secure env rs
  unfolding collect_errors
  starts-collect_errors env [] = refl
  starts-collect_errors env (r ∷ rs) =
      starts-run_check env r (lookup r (checks py)) (collect_errors py env rs)
      ∙ ap (λ z. z && starts (collect_errors py env rs >>= raise_errors py))
          (answer-checks py r env)
      ∙ ap (λ z. is_secure py r env && z) (starts-collect_errors env rs)

  starts-if :
      (b : Bool) (r : Result ConfigError (Unit {0}))
      → starts (if b then r else ok tt) ≡ not b || starts r
  starts-if true r = refl
  starts-if false r = refl

  -- A worker's configuration is let through exactly if the environment is not one of production, or
  -- it meets every requirement that the worker names, whatever their order; a name that is no
  -- requirement is never let through in production.
  pub validate_production_config-is_all_secure :
      (requirements : List String) (env : Option Env) (environ : Env)
      → let used = chosen py env environ in
        starts (validate_production_config py requirements env environ)
        ≡ not (is_production py used) || is_all_secure used requirements
  unfolding validate_production_config
  validate_production_config-is_all_secure requirements env environ =
      let used = chosen py env environ in
      starts-if (is_production py used) (collect_errors py used requirements >>= raise_errors py)
      ∙ ap (λ z. not (is_production py used) || z) (starts-collect_errors used requirements)
