-- ===== src/Base/Decimal.antt =====
-- `%d` of package fmt: decimal text in front of a rest, and a reader that undoes it.
use Prim.Native.Char.{Char, code}
use Prim.Native.String.{String}
use Prim.Native.Nat.{ℕ, zero, suc, ◌+◌, ◌-◌, ◌*◌, ◌/◌, ◌%◌, ◌<◌}
use mathlib.Core.Path.{◌≡◌, refl, sym, ap, ◌∙◌}
use mathlib.Core.Bool.{Bool, false, ◌&&◌}
use mathlib.Core.Logic.{◌≢◌, inl, inr}
use native.Mathlib.Omega.{arith}
use text.Mathlib.TextLemmas.{tail-eq_of_cons-eq}
use job_raft.Base.Tests.{ltb, leb, eq_ℕ, if◌then◌else◌, Bool-cases}
use job_raft.Base.Int.{ℤ, pos, negsuc}

digit : ℕ → Char
digit zero = "0"
digit (suc zero) = "1"
digit (suc (suc zero)) = "2"
digit (suc (suc (suc zero))) = "3"
digit (suc (suc (suc (suc zero)))) = "4"
digit (suc (suc (suc (suc (suc zero))))) = "5"
digit (suc (suc (suc (suc (suc (suc zero)))))) = "6"
digit (suc (suc (suc (suc (suc (suc (suc zero))))))) = "7"
digit (suc (suc (suc (suc (suc (suc (suc (suc zero)))))))) = "8"
digit (suc (suc (suc (suc (suc (suc (suc (suc (suc d))))))))) = "9"

-- The digits of `n` in front of `s`, for fuel above `n`.
digits : ℕ → ℕ → String → String
digits zero n s = s
digits (suc fuel) n s =
    let more = digits fuel (n / 10) (String.◌∷◌ (digit (n % 10)) s) in
    if ltb n 10 then String.◌∷◌ (digit n) s else more

unfoldable pub decimal : ℕ → String → String
unfolding digits digit
decimal n s = digits (suc n) n s

unfoldable pub decimal_ℤ : ℤ → String → String
unfolding decimal
decimal_ℤ (pos n) s = decimal n s
decimal_ℤ (negsuc n) s = String.◌∷◌ "-" (decimal (suc n) s)

-- Reads the digits at the front of a text.
read : ℕ → String → ℕ
read acc String.[] = acc
read acc (String.◌∷◌ c s) =
    let more = read (acc * 10 + (code c - 48)) s in
    if leb 48 (code c) && leb (code c) 57 then more else acc

read-digit :
    (acc d : ℕ) (s : String) → d < 10 → read acc (String.◌∷◌ (digit d) s) ≡ read (acc * 10 + d) s
unfolding read digit
read-digit acc zero s h = refl
read-digit acc (suc zero) s h = refl
read-digit acc (suc (suc zero)) s h = refl
read-digit acc (suc (suc (suc zero))) s h = refl
read-digit acc (suc (suc (suc (suc zero)))) s h = refl
read-digit acc (suc (suc (suc (suc (suc zero))))) s h = refl
read-digit acc (suc (suc (suc (suc (suc (suc zero)))))) s h = refl
read-digit acc (suc (suc (suc (suc (suc (suc (suc zero))))))) s h = refl
read-digit acc (suc (suc (suc (suc (suc (suc (suc (suc zero)))))))) s h = refl
read-digit acc (suc (suc (suc (suc (suc (suc (suc (suc (suc zero))))))))) s h = refl
read-digit acc (suc (suc (suc (suc (suc (suc (suc (suc (suc (suc d)))))))))) s h =
    absurd (omega arith)

read-digits : (fuel n : ℕ) (s : String) → n < fuel → read 0 (digits fuel n s) ≡ read n s
unfolding digits
read-digits zero n s h = absurd (omega arith)
read-digits (suc fuel) n s h = elim (Bool-cases (ltb n 10)) [
  | inl e ↦ rw e (read-digit 0 n s (ground arith) ∙ ap (λ (k : ℕ). read k s) (omega arith))
  | inr e ↦ rw e (
      read-digits fuel (n / 10) _ (ground arith)
      ∙ read-digit (n / 10) (n % 10) s (omega arith)
      ∙ ap (λ (k : ℕ). read k s) (omega arith))
]

read-decimal : (n : ℕ) (s : String) → read 0 (decimal n s) ≡ read n s
unfolding decimal
read-decimal n s = read-digits (suc n) n s (omega arith)

cancel-digits : (fuel n : ℕ) (s t : String) → digits fuel n s ≡ digits fuel n t → s ≡ t
unfolding digits
cancel-digits zero n s t e = e
cancel-digits (suc fuel) n s t e = elim (Bool-cases (ltb n 10)) [
  | inl h ↦ tail-eq_of_cons-eq (rw h at e)
  | inr h ↦ tail-eq_of_cons-eq (cancel-digits fuel (n / 10) _ _ (rw h at e))
]

-- `s` behind `k` zeros.
unfoldable pub zeros : ℕ → String → String
zeros zero s = s
zeros (suc k) s = String.◌∷◌ "0" (zeros k s)

read-zeros : (k : ℕ) (s : String) → read 0 (zeros k s) ≡ read 0 s
unfolding zeros read
read-zeros zero s = refl
read-zeros (suc k) s = read-zeros k s

-- A number behind zeros is read back.
pub zeros_inj : (j k a b : ℕ) → zeros j (decimal a "") ≡ zeros k (decimal b "") → a ≡ b
unfolding read
zeros_inj j k a b e =
    sym (read-zeros j _ ∙ read-decimal a "") ∙ ap (read 0) e ∙ (read-zeros k _ ∙ read-decimal b "")

-- Whether a text starts with a minus sign.
is_signed : String → Bool
is_signed String.[] = false
is_signed (String.◌∷◌ c s) = eq_ℕ (code c) 45

is_signed-digit : (d : ℕ) (s : String) → is_signed (String.◌∷◌ (digit d) s) ≡ false
unfolding is_signed digit
is_signed-digit zero s = refl
is_signed-digit (suc zero) s = refl
is_signed-digit (suc (suc zero)) s = refl
is_signed-digit (suc (suc (suc zero))) s = refl
is_signed-digit (suc (suc (suc (suc zero)))) s = refl
is_signed-digit (suc (suc (suc (suc (suc zero))))) s = refl
is_signed-digit (suc (suc (suc (suc (suc (suc zero)))))) s = refl
is_signed-digit (suc (suc (suc (suc (suc (suc (suc zero))))))) s = refl
is_signed-digit (suc (suc (suc (suc (suc (suc (suc (suc zero)))))))) s = refl
is_signed-digit (suc (suc (suc (suc (suc (suc (suc (suc (suc d))))))))) s = refl

is_signed-digits : (fuel n : ℕ) (s : String) → n < fuel → is_signed (digits fuel n s) ≡ false
unfolding digits
is_signed-digits zero n s h = absurd (omega arith)
is_signed-digits (suc fuel) n s h = elim (Bool-cases (ltb n 10)) [
  | inl e ↦ rw e (is_signed-digit n s)
  | inr e ↦ rw e (is_signed-digits fuel (n / 10) _ (ground arith))
]

decimal_inj :
    (a b : ℕ) (s t : String)
    → decimal a (String.◌∷◌ "-" s) ≡ decimal b (String.◌∷◌ "-" t)
    → (a ≡ b) × (s ≡ t)
unfolding read
decimal_inj a b s t e = (same, tail-eq_of_cons-eq rest)
  where
    same : a ≡ b
    same = sym (read-decimal a _) ∙ ap (read 0) e ∙ read-decimal b _

    rest : String.◌∷◌ "-" s ≡ String.◌∷◌ "-" t
    rest = cancel-digits (suc b) b _ _ (unfold decimal in rw same at e)

unsigned : (a b : ℕ) (s t : String) → decimal a s ≢ String.◌∷◌ "-" t
unfolding decimal is_signed
unsigned a b s t e = cc (sym (is_signed-digits (suc a) a s (omega arith)) ∙ ap is_signed e)

-- A number, a dash and a text are printed without loss.
pub decimal_ℤ_inj :
    (a b : ℤ) (s t : String)
    → decimal_ℤ a (String.◌∷◌ "-" s) ≡ decimal_ℤ b (String.◌∷◌ "-" t)
    → (a ≡ b) × (s ≡ t)
unfolding decimal_ℤ
decimal_ℤ_inj (pos a) (pos b) s t e = let (p, q) = decimal_inj a b s t e in (ap pos p, q)
decimal_ℤ_inj (pos a) (negsuc b) s t e = absurd (unsigned a b _ _ e)
decimal_ℤ_inj (negsuc a) (pos b) s t e = absurd (unsigned b a _ _ (sym e))
decimal_ℤ_inj (negsuc a) (negsuc b) s t e =
    let (p, q) = decimal_inj (suc a) (suc b) s t (tail-eq_of_cons-eq e) in (ground arith, q)
