-- ===== src/Cluster/First.antt =====
-- internal/cluster/election.go: the smallest identifier of a map of nodes.

use job_raft.Base.{
  ◌≡◌, refl, ◌⊎◌, inl, inr, String, true, false, some, [], ◌∷◌, arith, eq_iff, eq_refl, ◌==◌,
  Bool-cases, lookup,
}
use job_raft.Base.{str_ltb, str_ltb_trans, str_ltb_irrefl}
use job_raft.Cluster.{first_id, promote, Node, Nodes}

first_id-down :
    (best : String) (m : Nodes) → (first_id best m ≡ best) ⊎ (str_ltb (first_id best m) best ≡ true)
unfolding first_id
first_id-down best [] = inl refl
first_id-down best ((id, n) ∷ m) = elim (Bool-cases (str_ltb id best)) [
  | inr keep ↦ rw keep (first_id-down best m)
  | inl take ↦ rw take (
      inr (elim (first_id-down id m) [
        | inl same ↦ rw same take
        | inr down ↦ str_ltb_trans (first_id id m) id best down take
      ]))
]

-- What does not come before the best of a list, does not come before an earlier best.
not_before :
    (id best : String) (m : Nodes) → str_ltb id best ≡ false → str_ltb id (first_id best m) ≡ false
not_before id best m h = elim (first_id-down best m) [
  | inl same ↦ rw same h
  | inr down ↦ elim (Bool-cases (str_ltb id (first_id best m))) [
    | inr no' ↦ no'
    | inl yes' ↦ cc (h, str_ltb_trans id (first_id best m) best yes' down)
  ]
]

first_id-best : (best : String) (m : Nodes) → str_ltb best (first_id best m) ≡ false
first_id-best best m = not_before best best m (str_ltb_irrefl best)

first_id-before :
    (best : String) (m : Nodes) (id : String) (n : Node)
    → lookup id m ≡ some n
    → str_ltb id (first_id best m) ≡ false
unfolding first_id lookup
first_id-before best [] id n h = cc h
first_id-before best ((j, k) ∷ m) id n h = elim (Bool-cases (str_ltb j best)) [
  | inl take ↦ rw take (elim (Bool-cases (id == j)) [
    | inl hit ↦ rw ((eq_iff id j).0 hit) (first_id-best j m)
    | inr other ↦ first_id-before j m id n (rw other at h)
  ])
  | inr keep ↦ rw keep (elim (Bool-cases (id == j)) [
    | inl hit ↦ rw ((eq_iff id j).0 hit) (not_before j best m keep)
    | inr other ↦ first_id-before best m id n (rw other at h)
  ])
]

first_id-nil : (best : String) → first_id best [] ≡ best
unfolding first_id
first_id-nil best = refl

first_id-take :
    (best id : String) (n : Node) (m : Nodes)
    → str_ltb id best ≡ true
    → first_id best ((id, n) ∷ m) ≡ first_id id m
unfolding first_id
first_id-take best id n m h = rw h refl

first_id-keep :
    (best id : String) (n : Node) (m : Nodes)
    → str_ltb id best ≡ false
    → first_id best ((id, n) ∷ m) ≡ first_id best m
unfolding first_id
first_id-keep best id n m h = rw h refl

lookup_rest :
    (key id : String) (n k : Node) (m : Nodes)
    → lookup key m ≡ some k
    → (n' : Node) × (lookup key ((id, n) ∷ m) ≡ some n')
unfolding lookup
lookup_rest key id n k m h = elim (Bool-cases (key == id)) [
  | inl hit ↦ (n, ground arith)
  | inr other ↦ (k, ground arith)
]

lookup_nil : (id : String) (n : Node) → ¬ (lookup id [] ≡ some n)
unfolding lookup
lookup_nil id n h = cc h

lookup_head : (id : String) (n : Node) (m : Nodes) → lookup id ((id, n) ∷ m) ≡ some n
unfolding lookup
lookup_head id n m = ground (arith, eq_refl id)

-- The first identifier is the one that the search starts with, or is in the map.
first_id-found :
    (best : String) (m : Nodes)
    → (first_id best m ≡ best) ⊎ ((n : Node) × (lookup (first_id best m) m ≡ some n))
first_id-found best [] = inl (first_id-nil best)
first_id-found best ((id, n) ∷ m) = elim (Bool-cases (str_ltb id best)) [
  | inl take ↦ rw (first_id-take best id n m take) (
      inr (elim (first_id-found id m) [
        | inl same ↦ rw same (n, lookup_head id n m)
        | inr (k, found) ↦ lookup_rest (first_id id m) id n k m found
      ]))
  | inr keep ↦ rw (first_id-keep best id n m keep) (elim (first_id-found best m) [
    | inl same ↦ inl same
    | inr (k, found) ↦ inr (lookup_rest (first_id best m) id n k m found)
  ])
]

-- The smallest identifier of a map that is not empty.
abbrev pub elected : Nodes → String
elected [] = ""
elected ((id, n) ∷ m) = first_id id m

first_id-promote :
    (best first : String) (m : Nodes) → first_id best (promote first m) ≡ first_id best m
unfolding first_id promote
first_id-promote best first [] = refl
first_id-promote best first ((id, n) ∷ m) =
    ground (arith, first_id-promote best first m, first_id-promote id first m)

pub elected-promote : (first : String) (m : Nodes) → elected (promote first m) ≡ elected m
unfolding promote
elected-promote first [] = refl
elected-promote first ((id, n) ∷ m) = first_id-promote id first m

pub elected-before :
    (m : Nodes) (id : String) (n : Node) → lookup id m ≡ some n → str_ltb id (elected m) ≡ false
unfolding lookup
elected-before [] id n h = cc h
elected-before ((j, k) ∷ m) id n h = elim (Bool-cases (id == j)) [
  | inl hit ↦ rw ((eq_iff id j).0 hit) (first_id-best j m)
  | inr other ↦ first_id-before j m id n (rw other at h)
]

pub elected-found :
    (m : Nodes) (id : String) (n : Node)
    → lookup id m ≡ some n
    → (k : Node) × (lookup (elected m) m ≡ some k)
elected-found [] id n h = absurd (lookup_nil id n h)
elected-found ((j, l) ∷ m) id n h = elim (first_id-found j m) [
  | inl same ↦ rw same (l, lookup_head j l m)
  | inr (k, found) ↦ lookup_rest (first_id j m) j l k m found
]
