-- ===== src/Velato/Execute/Inputs.antt =====
-- The loop of execute over INPUTS (services/velato-engine/engine.py).
use signalchord.Prelude.{
  String, Post-weaken, subst, eq_refl, ◌≡◌, true, false, ◌=ˢ◌, none, some, List, [], ◌∷◌, Post,
  Dict, lookup, insert, lookup-insert, lookup-insert_self, contains, eq_iff, Bool-cases,
  Option-cases, inl, inr,
}
use signalchord.Velato.Errors.{Error}
use mathlib.Core.Bool.{or-true}
use signalchord.Velato.Floats.{Floats}
use signalchord.Velato.Step.Fits.{IsFinite}
use signalchord.Velato.Execute.{normalize_inputs}

module _ (fl : Floats) where
  open fl use {F, is_finite}

  abbrev pub Has : Dict F → String → Type 0
  Has env name = (x : F) × (lookup name env ≡ some x) × IsFinite fl x

  insert-Has :
      (key name : String) (v : F) (env : Dict F)
      → IsFinite fl v
      → Has env name
      → Has (insert key v env) name
  insert-Has key name v env fv (x, e, fx) = elim (Bool-cases (key =ˢ name)) [
    | inl same ↦ (v, rw (lookup-insert key name v env, same), fv)
    | inr differs ↦ (x, rw (lookup-insert key name v env, differs) e, fx)
  ]

  -- what the loop has made of a dict that it began with
  pub record Normalized (keys : List String) (before after : Dict F) : Type 0 where
    pub kept : (name : String) → Has before name → Has after name
    pub given : (name : String) → contains keys name ≡ true → Has after name

  -- The errors that the inputs can cause: of the keys, the one that is missing, or whose value is
  -- an infinity or a NaN.
  abbrev pub Rejects : List String → Dict F → Error → Type 0
  Rejects keys given (Error.missing_input name) =
      (contains keys name ≡ true) × (lookup name given ≡ none)
  Rejects keys given (Error.infinite_input name) =
      (contains keys name ≡ true) × ((x : F) × (lookup name given ≡ some x) × (is_finite x ≡ false))
  Rejects keys given _ = ⊥

  contains_more :
      (key name : String) (keys : List String)
      → contains keys name ≡ true
      → contains (key ∷ keys) name ≡ true
  contains_more key name keys h = rw (h, or-true)

  contains_first : (key : String) (keys : List String) → contains (key ∷ keys) key ≡ true
  contains_first key keys = rw eq_refl

  Rejects-cons :
      (key : String) (keys : List String) (given : Dict F) (e : Error)
      → Rejects keys given e
      → Rejects (key ∷ keys) given e
  Rejects-cons key keys given (Error.missing_input name) r = (contains_more key name keys r.0, r.1)
  Rejects-cons key keys given (Error.infinite_input name) r = (contains_more key name keys r.0, r.1)
  Rejects-cons key keys given _ r = elim r [ ]

  -- one more key, on top of what the rest of the loop does
  Normalized-cons :
      (key : String) (keys : List String) (x : F) (before after : Dict F)
      → IsFinite fl x
      → Normalized keys (insert key x before) after
      → Normalized (key ∷ keys) before after
  Normalized-cons key keys x before after fx n = record {
    kept = λ name h. n.kept name (insert-Has key name x before fx h);
    given = λ name h. elim (Bool-cases (key =ˢ name)) [
      | inl same ↦
          subst (Has after) ((eq_iff key name).0 same)
            (n.kept key (x, lookup-insert_self key x before, fx))
      | inr differs ↦ n.given name (rw differs at h)
    ];
  }

  pub normalize_inputs-Normalized :
      (keys : List String) (given before : Dict F)
      → Post (Normalized keys before) (Rejects keys given) (normalize_inputs fl keys given before)
  unfolding normalize_inputs
  normalize_inputs-Normalized [] given before = record { kept = λ name h. h; given = λ name h. cc }
  normalize_inputs-Normalized (key ∷ keys) given before = elim (Option-cases (lookup key given)) [
    | inl missing ↦ rw missing (contains_first key keys, missing)
    | inr (x, e) ↦ rw e (elim (Bool-cases (is_finite x)) [
      | inl fx ↦ rw fx (
          Post-weaken (Normalized keys (insert key x before)) (Normalized (key ∷ keys) before)
            (Rejects keys given) (Rejects (key ∷ keys) given)
            (normalize_inputs fl keys given (insert key x before))
            (normalize_inputs-Normalized keys given (insert key x before))
            (λ after. Normalized-cons key keys x before after fx) (Rejects-cons key keys given))
      | inr bad ↦ rw bad (contains_first key keys, (x, e, bad))
    ])
  ]
