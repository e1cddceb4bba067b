-- ===== src/Base/Order.antt =====
-- The order of texts, by their code points.
use Prim.Native.Nat.{compare as compare_ℕ, Ordering}
use Prim.Native.Char.{code}
use Prim.Native.String.{String, compare, then}
use Prim.Native.String.compare
use mathlib.Core.Path.{◌≡◌, sym, ap, ◌∙◌}
use mathlib.Core.Bool.{Bool, true, false}
use native.Mathlib.Omega.{arith}
use text.Mathlib.Text.{is_lt}
use text.Mathlib.TextPositions.{compare_refl}

-- `a < b` on Go's strings goes by bytes, which is the order of the code points.
abbrev pub str_ltb : String → String → Bool
str_ltb a b = is_lt (compare a b)

-- The comparison of two texts from that of their first characters and that of their rests.
first_differs :
    (a b c : Prim.Native.Nat.ℕ) (r q p : Ordering)
    → (is_lt r ≡ true → is_lt q ≡ true → is_lt p ≡ true)
    → is_lt (then (compare_ℕ a b) r) ≡ true
    → is_lt (then (compare_ℕ b c) q) ≡ true
    → is_lt (then (compare_ℕ a c) p) ≡ true
first_differs a b c r q p rest h k = ground (arith, rest)

pub str_ltb_trans : (a b c : String) → str_ltb a b ≡ true → str_ltb b c ≡ true → str_ltb a c ≡ true
str_ltb_trans String.[] String.[] c h k = cc h
str_ltb_trans String.[] (String.◌∷◌ y b) String.[] h k =
    cc (sym k ∙ ap is_lt (compare.cons-nil y b))
str_ltb_trans String.[] (String.◌∷◌ y b) (String.◌∷◌ z c) h k = ap is_lt (compare.nil-cons z c)
str_ltb_trans (String.◌∷◌ x a) String.[] c h k = cc (sym h ∙ ap is_lt (compare.cons-nil x a))
str_ltb_trans (String.◌∷◌ x a) (String.◌∷◌ y b) String.[] h k =
    cc (sym k ∙ ap is_lt (compare.cons-nil y b))
str_ltb_trans (String.◌∷◌ x a) (String.◌∷◌ y b) (String.◌∷◌ z c) h k =
    ap is_lt (compare.cons-cons x z a c)
    ∙ first_differs (code x) (code y) (code z) _ _ _ (str_ltb_trans a b c)
        (sym (ap is_lt (compare.cons-cons x y a b)) ∙ h)
        (sym (ap is_lt (compare.cons-cons y z b c)) ∙ k)

pub str_ltb_irrefl : (a : String) → str_ltb a a ≡ false
str_ltb_irrefl a = ap is_lt (compare_refl a)
