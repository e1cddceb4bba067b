-- ===== src/Cluster/Elects.antt =====
-- internal/cluster/election.go: a renewal elects the node with the smallest identifier.
use job_raft.Task.{add_time}
use job_raft.Base.{
  lookup-insert, insert, ltb_ℤ, ℕ, ◌≡◌, refl, ap, ◌∙◌, inl, inr, String, true, false, some, [], ◌∷◌,
  arith, eq_iff, eq_refl, ◌==◌, if◌then◌else◌, Bool-cases, lookup, ℤ, pos,
}
use job_raft.Base.{str_ltb}
use job_raft.Cluster.{
  drop_expired, crown, renew, leader, follower, promote, as_followers, Node, Nodes,
}
use job_raft.Cluster.First.{elected, elected-promote, elected-before, elected-found}

as_followers-role :
    (id : String) (m : Nodes) (n : Node) → lookup id (as_followers m) ≡ some n → n.role ≡ follower
unfolding lookup as_followers
as_followers-role id [] n h = cc h
as_followers-role id ((j, k) ∷ m) n h = ground (arith, as_followers-role id m n)

promote-role :
    (first id : String) (m : Nodes) (n : Node)
    → lookup id (promote first m) ≡ some n
    → (k : Node) × (lookup id m ≡ some k) × (n.role ≡ (if first == id then leader else k.role))
unfolding lookup promote
promote-role first id [] n h = cc h
promote-role first id ((j, k) ∷ m) n h = elim (Bool-cases (id == j)) [
  | inl hit ↦ (k, ground arith, ground (arith, eq_iff id j, eq_iff first j, eq_iff first id))
  | inr other ↦
      let (l, found, role) = promote-role first id m n (rw other at h) in (l, ground arith, role)
]

lookup-promote :
    (first id : String) (m : Nodes) (k : Node)
    → lookup id m ≡ some k
    → (n : Node) × (lookup id (promote first m) ≡ some n)
unfolding lookup promote
lookup-promote first id [] k h = cc h
lookup-promote first id ((j, l) ∷ m) k h = elim (Bool-cases (id == j)) [
  | inl hit ↦ (if first == j then record l { role = leader } else l, ground arith)
  | inr other ↦ let (n, found) = lookup-promote first id m k (rw other at h) in (n, ground arith)
]

crown-promote : (m : Nodes) → crown m ≡ promote (elected m) m
unfolding crown promote
crown-promote [] = refl
crown-promote ((id, n) ∷ m) = refl

lookup-as_followers :
    (id : String) (m : Nodes) (k : Node)
    → lookup id m ≡ some k
    → (n : Node) × (lookup id (as_followers m) ≡ some n)
unfolding lookup as_followers
lookup-as_followers id [] k h = cc h
lookup-as_followers id ((j, l) ∷ m) k h = elim (Bool-cases (id == j)) [
  | inl hit ↦ (record l { role = follower }, ground arith)
  | inr other ↦ let (n, found) = lookup-as_followers id m k (rw other at h) in (n, ground arith)
]

-- A node that was just put in is found once a leader is crowned.
pub lookup-crown :
    (id : String) (n : Node) (m : Nodes)
    → (k : Node) × (lookup id (crown (as_followers (insert id n m))) ≡ some k)
lookup-crown id n m =
    let here' : lookup id (insert id n m) ≡ some n =
      lookup-insert id id n m ∙ ap (λ b. if b then some n else lookup id m) (eq_refl id) in
    let (k, found) = lookup-as_followers id (insert id n m) n here' in
    let all = as_followers (insert id n m) in
    let (l, found') = lookup-promote (elected all) id all k found in
    (l, ap (lookup id) (crown-promote all) ∙ found')

-- The live nodes together with the one that renews.
abbrev registered : ℕ → String → ℤ → Nodes → Nodes
registered now id ttl m =
    insert id
      (record { id = id; role = follower; last_contact = now; lease_until = add_time now ttl })
      (drop_expired now m)

renew-crown :
    (now : ℕ) (id : String) (ttl : ℤ) (m : Nodes)
    → (id == "") ≡ false
    → ltb_ℤ (pos 0) ttl ≡ true
    → (renew now id ttl m).1 ≡ crown (as_followers (registered now id ttl m))
unfolding renew
renew-crown now id ttl m named long = ground arith

-- What a crowned map of followers looks like at each of its entries.
crown-elected :
    (m : Nodes) (j : String) (k : Node)
    → lookup j (crown (as_followers m)) ≡ some k
    → (str_ltb j (elected (crown (as_followers m))) ≡ false)
      × (k.role ≡ (if elected (crown (as_followers m)) == j then leader else follower))
      × (n : Node) × (lookup (elected (crown (as_followers m))) (crown (as_followers m)) ≡ some n)
crown-elected m j k h =
    let f = as_followers m in
    let flat = crown-promote f in
    let same : elected (crown f) ≡ elected f = ap elected flat ∙ elected-promote (elected f) f in
    let (l, found, role) = promote-role (elected f) j f k (rw flat at h) in
    let (n, there) = elected-found f j l found in
    let (n', crowned) = lookup-promote (elected f) (elected f) f n there in
    rw same (
      elected-before f j l found,
      ground (arith, as_followers-role j m l found),
      n',
      rw flat crowned,
    )

-- After a renewal with a name and a positive duration, each registered node is the leader if its
-- identifier is the smallest one and a follower if not; and the smallest one is registered.
pub renew_elects :
    (now : ℕ) (id : String) (ttl : ℤ) (m : Nodes) (j : String) (k : Node)
    → (id == "") ≡ false
    → ltb_ℤ (pos 0) ttl ≡ true
    → lookup j (renew now id ttl m).1 ≡ some k
    → (str_ltb j (elected (renew now id ttl m).1) ≡ false)
      × (k.role ≡ (if elected (renew now id ttl m).1 == j then leader else follower))
      × (n : Node) × (lookup (elected (renew now id ttl m).1) (renew now id ttl m).1 ≡ some n)
renew_elects now id ttl m j k named long h =
    let same = renew-crown now id ttl m named long in
    rw same (crown-elected (registered now id ttl m) j k (rw same at h))
