-- ===== src/Nlp/Mentions/Overlap.antt =====
-- The spans that extract_mentions (services/nlp-pipeline/app.py) accepts.
use signalchord.Prelude.{
  ◌≡◌, refl, subst, Bool, true, false, ◌||◌, List, [], ◌∷◌, ◌++◌, All, ltb, if◌then◌else◌, arith,
}
use mathlib.Core.List.{append_assoc}
use signalchord.Nlp.Mentions.{Candidate, overlaps, overlaps_any, accept}

abbrev pub IsApart : List Candidate → Candidate → Type 0
IsApart accepted c = overlaps_any c accepted ≡ false

-- no two spans of the list overlap
abbrev pub IsDisjoint : List Candidate → Type 0
IsDisjoint [] = Unit
IsDisjoint (c ∷ cs) = All (λ d. overlaps d c ≡ false) cs × IsDisjoint cs

All-weaken :
    (P Q : Candidate → Type 0) (cs : List Candidate)
    → ((c : Candidate) → P c → Q c)
    → All P cs
    → All Q cs
All-weaken P Q [] f h = tt
All-weaken P Q (c ∷ cs) f h = (f c h.0, All-weaken P Q cs f h.1)

overlaps_any-append :
    (c : Candidate) (xs ys : List Candidate)
    → overlaps_any c (xs ++ ys) ≡ overlaps_any c xs || overlaps_any c ys
overlaps_any-append c [] ys = refl
overlaps_any-append c (x ∷ xs) ys = ground (arith, overlaps_any-append c xs ys)

split_apart :
    (c : Candidate) (xs : List Candidate) (d : Candidate)
    → overlaps_any c (xs ++ d ∷ []) ≡ false
    → (overlaps_any c xs ≡ false) × (overlaps c d ≡ false)
split_apart c xs d h = ground (arith, overlaps_any-append c xs (d ∷ []))

cons-IsApart :
    (accepted : List Candidate) (c : Candidate) (skipped rest : List Candidate) (b : Bool)
    → overlaps_any c accepted ≡ b
    → All (IsApart accepted) skipped
    → All (IsApart (accepted ++ c ∷ [])) rest
    → All (IsApart accepted) (if b then skipped else c ∷ rest)
cons-IsApart accepted c skipped rest true e h g = h
cons-IsApart accepted c skipped rest false e h g = (
  e,
  All-weaken (IsApart (accepted ++ c ∷ [])) (IsApart accepted) rest
      (λ d k. (split_apart d accepted c k).0) g,
)

accept-IsApart : (accepted cs : List Candidate) → All (IsApart accepted) (accept accepted cs)
unfolding accept
accept-IsApart accepted [] = tt
accept-IsApart accepted (c ∷ cs) =
    cons-IsApart accepted c (accept accepted cs) (accept (accepted ++ c ∷ []) cs)
      (overlaps_any c accepted) refl (accept-IsApart accepted cs)
      (accept-IsApart (accepted ++ c ∷ []) cs)

cons-IsDisjoint :
    (accepted : List Candidate) (c : Candidate) (skipped rest : List Candidate) (b : Bool)
    → IsDisjoint skipped
    → All (IsApart (accepted ++ c ∷ [])) rest
    → IsDisjoint rest
    → IsDisjoint (if b then skipped else c ∷ rest)
cons-IsDisjoint accepted c skipped rest true h g k = h
cons-IsDisjoint accepted c skipped rest false h g k = (
  All-weaken (IsApart (accepted ++ c ∷ [])) (λ d. overlaps d c ≡ false) rest
      (λ d e. (split_apart d accepted c e).1) g,
  k,
)

-- The spans that the loop accepts do not overlap one another, whatever was accepted before.
pub accept-IsDisjoint : (accepted cs : List Candidate) → IsDisjoint (accept accepted cs)
unfolding accept
accept-IsDisjoint accepted [] = tt
accept-IsDisjoint accepted (c ∷ cs) =
    cons-IsDisjoint accepted c (accept accepted cs) (accept (accepted ++ c ∷ []) cs)
      (overlaps_any c accepted) (accept-IsDisjoint accepted cs)
      (accept-IsApart (accepted ++ c ∷ []) cs) (accept-IsDisjoint (accepted ++ c ∷ []) cs)

abbrev pub IsProper : Candidate → Type 0
IsProper c = ltb c.start c.end ≡ true

-- a span is accepted or overlaps one that is
abbrev IsCovered : List Candidate → Candidate → Type 0
IsCovered all c = overlaps_any c all ≡ true

append-IsCovered_left :
    (c : Candidate) (xs ys : List Candidate)
    → overlaps_any c xs ≡ true
    → overlaps_any c (xs ++ ys) ≡ true
append-IsCovered_left c xs ys h = ground (arith, overlaps_any-append c xs ys)

append-IsCovered_self :
    (c : Candidate) (xs ys : List Candidate) → IsProper c → overlaps_any c (xs ++ c ∷ ys) ≡ true
append-IsCovered_self c xs ys h = ground (arith, overlaps_any-append c xs (c ∷ ys))

cons-IsCovered :
    (accepted : List Candidate) (c : Candidate) (cs skipped rest : List Candidate) (b : Bool)
    → IsProper c
    → overlaps_any c accepted ≡ b
    → All (IsCovered (accepted ++ skipped)) cs
    → All (IsCovered ((accepted ++ c ∷ []) ++ rest)) cs
    → All (IsCovered (accepted ++ (if b then skipped else c ∷ rest))) (c ∷ cs)
cons-IsCovered accepted c cs skipped rest true p e h g =
    (append-IsCovered_left c accepted skipped e, h)
cons-IsCovered accepted c cs skipped rest false p e h g = (
  append-IsCovered_self c accepted rest p,
  subst (λ all. All (IsCovered all) cs) (append_assoc accepted (c ∷ []) rest) g,
)

-- Every span that the loop looks at, if it is not empty, overlaps a span accepted before or by the
-- loop: itself or an earlier one.
pub accept-IsCovered :
    (accepted cs : List Candidate)
    → All IsProper cs
    → All (λ c. overlaps_any c (accepted ++ accept accepted cs) ≡ true) cs
unfolding accept
accept-IsCovered accepted [] h = tt
accept-IsCovered accepted (c ∷ cs) h =
    cons-IsCovered accepted c cs (accept accepted cs) (accept (accepted ++ c ∷ []) cs)
      (overlaps_any c accepted) h.0 refl (accept-IsCovered accepted cs h.1)
      (accept-IsCovered (accepted ++ c ∷ []) cs h.1)
