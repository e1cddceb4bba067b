-- ===== src/Base/Maps.antt =====
-- Go's maps with string keys, as association lists. Go ranges over a map in an unspecified order;
-- the order of the list stands for the one that a run takes.
use Prim.Native.String.{String}
use mathlib.Core.Path.{◌≡◌}
use mathlib.Core.Option.{Option, none, some}
use mathlib.Core.List.{List, [], ◌∷◌, map}
use native.Mathlib.Omega.{arith}
use text.Mathlib.Text.{◌==◌}
use text.Mathlib.TextEquality.{eq_iff}
use job_raft.Base.Tests.{if◌then◌else◌}

abbrev pub Assoc {ℓ} : Type ℓ → Type ℓ
Assoc V = List (String × V)

module _ {ℓ} {V : Type ℓ} where
  unfoldable pub lookup : String → Assoc V → Option V
  lookup name [] = none
  lookup name (entry ∷ rest) = if name == entry.0 then some entry.1 else lookup name rest

  -- `m[name] = x`
  unfoldable pub insert : String → V → Assoc V → Assoc V
  insert name x [] = (name, x) ∷ []
  insert name x (entry ∷ rest) =
      if name == entry.0 then (name, x) ∷ rest else entry ∷ insert name x rest

  -- `delete(m, name)`
  unfoldable pub erase : String → Assoc V → Assoc V
  erase name [] = []
  erase name (entry ∷ rest) =
      let others = erase name rest in if name == entry.0 then others else entry ∷ others

  pub lookup-insert :
      (k asked : String) (x : V) (m : Assoc V)
      → lookup asked (insert k x m) ≡ (if k == asked then some x else lookup asked m)
  unfolding lookup insert
  lookup-insert k asked x [] = ground (arith, eq_iff k asked, eq_iff asked k)
  lookup-insert k asked x (entry ∷ rest) = ground (
    arith,
    lookup-insert k asked x rest,
    eq_iff asked entry.0,
    eq_iff k entry.0,
    eq_iff k asked,
    eq_iff asked k,
  )

  pub lookup-erase :
      (k asked : String) (m : Assoc V)
      → lookup asked (erase k m) ≡ (if k == asked then none else lookup asked m)
  unfolding lookup erase
  lookup-erase k asked [] = ground arith
  lookup-erase k asked (entry ∷ rest) =
      ground
        (arith, lookup-erase k asked rest, eq_iff asked entry.0, eq_iff k entry.0, eq_iff k asked)

  -- The values of a map, in its order.
  abbrev pub values : Assoc V → List V
  values = map (λ e. e.1)

pub ruleset assoc_laws = (lookup-insert, lookup-erase)
