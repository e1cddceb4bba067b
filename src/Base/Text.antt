-- ===== src/Base/Text.antt =====
-- The functions of package strings that the sources call on texts.
use Prim.Native.Nat.{◌-◌}
use Prim.Native.Char.{Char, code}
use Prim.Native.String.{String, len, slice, ◌++◌}
use mathlib.Core.Path.{◌≡◌, refl, ap, ◌∙◌}
use mathlib.Core.Logic.{inl, inr}
use mathlib.Core.Bool.{Bool, true, false, ◌&&◌}
use mathlib.Core.List.{List, [], ◌∷◌}
use native.Mathlib.Omega.{arith}
use text.Mathlib.Text.{◌==◌, starts_with}
use text.Mathlib.TextPositions.{
  len-append, slice-append_left, slice-append_right, starts_with-append, eq_refl,
}
use text.Mathlib.TextLemmas.{nil-append, cons-append}
use job_raft.Base.Tests.{leb, eq_ℕ, if◌then◌else◌, Bool-cases}

-- `strings.TrimPrefix`
unfoldable pub trim_prefix : String → String → String
trim_prefix s p = if starts_with s p then slice s (len p) (len s) else s

-- `strings.HasSuffix`
unfoldable pub has_suffix : String → String → Bool
has_suffix s p = leb (len p) (len s) && slice s (len s - len p) (len s) == p

-- `strings.TrimSuffix`
unfoldable pub trim_suffix : String → String → String
unfolding has_suffix
trim_suffix s p = if has_suffix s p then slice s 0 (len s - len p) else s

-- Puts a character in front of the first part.
abbrev onto_first : Char → List String → List String
onto_first c [] = (String.◌∷◌ c "") ∷ []
onto_first c (p ∷ ps) = String.◌∷◌ c p ∷ ps

-- `strings.Split(s, "/")`
unfoldable pub split_slash : String → List String
split_slash String.[] = "" ∷ []
split_slash (String.◌∷◌ c s) =
    let parts = split_slash s in if eq_ℕ (code c) b'/' then "" ∷ parts else onto_first c parts

-- Whether the text has a slash.
unfoldable pub has_slash : String → Bool
has_slash String.[] = false
has_slash (String.◌∷◌ c s) = let rest = has_slash s in if eq_ℕ (code c) b'/' then true else rest

pub trim_prefix-append : (p s : String) → trim_prefix (p ++ s) p ≡ s
unfolding trim_prefix
trim_prefix-append p s =
    rw (starts_with-append p s)
      (ap (slice (p ++ s) (len p)) (len-append p s) ∙ slice-append_right p s)

pub has_suffix-append : (s p : String) → has_suffix (s ++ p) p ≡ true
unfolding has_suffix
has_suffix-append s p =
    let size = len-append s p in
    let start : len (s ++ p) - len p ≡ len s = omega (arith, size) in
    let fits : leb (len p) (len (s ++ p)) ≡ true = ground (arith, size) in
    let cut : slice (s ++ p) (len (s ++ p) - len p) (len (s ++ p)) ≡ p =
      rw start (rw size (slice-append_right s p)) in
    rw fits (rw cut (eq_refl p))

pub trim_suffix-append : (s p : String) → trim_suffix (s ++ p) p ≡ s
unfolding trim_suffix
trim_suffix-append s p =
    let size = len-append s p in
    let start : len (s ++ p) - len p ≡ len s = omega (arith, size) in
    rw (has_suffix-append s p) (rw start (slice-append_left s p))

pub split_slash-append :
    (a b : String) → has_slash a ≡ false → split_slash (a ++ String.◌∷◌ "/" b) ≡ a ∷ split_slash b
unfolding split_slash has_slash
split_slash-append String.[] b h = rw (nil-append (String.◌∷◌ "/" b)) refl
split_slash-append (String.◌∷◌ c a) b h =
    rw (cons-append c a (String.◌∷◌ "/" b)) (elim (Bool-cases (eq_ℕ (code c) b'/')) [
      | inl slash ↦ ground arith
      | inr other ↦ ground (arith, split_slash-append a b)
    ])
