-- ===== src/Graph/Letters.antt =====
-- Texts with a letter of a to z, which `str.strip` never makes empty.
use Prim.Native.Char.{Char}
use Prim.Native.String.{String, ◌++◌}
use Prim.Native.String.append
use signalchord.Prelude.{◌≡◌, refl, ap, ◌∙◌, Bool, true, false, not, ◌&&◌, ◌||◌, str_ltb}

abbrev pub is_letter : Char → Bool
is_letter c = let s = String.◌∷◌ c String.[] in not (str_ltb s "a") && not (str_ltb "z" s)

abbrev pub has_letter : String → Bool
has_letter String.[] = false
has_letter (String.◌∷◌ c s) = is_letter c || has_letter s

or_assoc : (a b c : Bool) → (a || (b || c)) ≡ ((a || b) || c)
or_assoc true b c = refl
or_assoc false b c = refl

has_letter-append : (s t : String) → has_letter (s ++ t) ≡ has_letter s || has_letter t
has_letter-append String.[] t = ap has_letter (λ i. append.nil t i)
has_letter-append (String.◌∷◌ c s) t =
    ap has_letter (λ i. append.cons c s t i)
    ∙ ap (λ b. is_letter c || b) (has_letter-append s t)
    ∙ or_assoc (is_letter c) (has_letter s) (has_letter t)

-- a text that begins with a text with a letter
pub has_letter-append_left : (s t : String) → has_letter s ≡ true → has_letter (s ++ t) ≡ true
has_letter-append_left s t h = has_letter-append s t ∙ ap (λ b. b || has_letter t) h
