-- ===== src/Cluster.antt =====
-- internal/cluster/election.go: the registry of nodes in memory, and the elector that keeps a node's
-- lease. A call takes the reading of the clock that it makes; the elector's loop is a sequence of
-- renewals.
pub mod Elects
pub mod First
pub mod FileRegistry
pub mod Consensus
use job_raft.Task.{Err, add_time}
use job_raft.Base.{
  insert, values, ltb_ℤ, Assoc, ℕ, zero, suc, ◌+◌, ◌-◌, ◌*◌, ◌≡◌, ◌≢◌, refl, sym, ap, ◌∙◌, ◌≤◌, ◌<◌,
  ◌⊎◌, inl, inr, String, Bool, true, false, not, ◌&&◌, ◌||◌, Option, none, some, List, [], ◌∷◌,
  ◌++◌, arith, eq_iff, eq_refl, ◌==◌, ltb, if◌then◌else◌, Bool-cases, Option-cases, lookup, is_some,
  length, ℤ, pos, negsuc,
}
use job_raft.Base.{str_ltb}

-- `no_role` is the empty string, which the zero Node has.
pub data Role : Type 0 where
  no_role follower leader : Role

abbrev pub is_leader_role : Role → Bool
is_leader_role leader = true
is_leader_role _ = false

pub record Node : Type 0 where
  pub id : String
  pub role : Role
  pub last_contact : ℕ
  pub lease_until : ℕ

-- What a call of a registry fails with.
pub data RegistryErr : Type 0 where
  bad_arguments : RegistryErr
  path_required : RegistryErr
  lock_timeout : RegistryErr
  -- an error of the file system or of the JSON of the file
  storage_failed : Err → RegistryErr

-- The map of a MemoryRegistry.
abbrev pub Nodes : Type 0
Nodes = Assoc Node

-- Deletes the nodes whose lease is over.
unfoldable pub drop_expired : ℕ → Nodes → Nodes
drop_expired now [] = []
drop_expired now ((id, n) ∷ m) =
    let rest = drop_expired now m in if ltb now n.lease_until then (id, n) ∷ rest else rest

unfoldable pub as_followers : Nodes → Nodes
as_followers [] = []
as_followers ((id, n) ∷ m) = (id, record n { role = follower }) ∷ as_followers m

-- `ids[0]` once the identifiers are sorted.
unfoldable pub first_id : String → Nodes → String
first_id best [] = best
first_id best ((id, n) ∷ m) = if str_ltb id best then first_id id m else first_id best m

-- Gives the first node the role of the leader.
unfoldable pub promote : String → Nodes → Nodes
promote id [] = []
promote id ((j, n) ∷ m) = (j, if id == j then record n { role = leader } else n) ∷ promote id m

unfoldable pub crown : Nodes → Nodes
crown [] = []
crown ((id, n) ∷ m) = promote (first_id id m) ((id, n) ∷ m)

unfoldable pub renew : ℕ → String → ℤ → Nodes → (RegistryErr ⊎ Node) × Nodes
renew now id ttl m =
    if id == "" || not (ltb_ℤ (pos 0) ttl)
    then (inl bad_arguments, m)
    else (let n : Node = record {
      id = id;
      role = follower;
      last_contact = now;
      lease_until = add_time now ttl;
    } in
        let m' = crown (as_followers (insert id n (drop_expired now m))) in
        (elim (lookup id m') [ some n' ↦ inr n' | none ↦ inr n ], m'))

-- `Leader`: the first live node, now with the leader's role.
unfoldable pub find_leader : ℕ → Nodes → Option Node × Nodes
find_leader now m =
    let live = crown (drop_expired now m) in
    elim (drop_expired now m) [
      | [] ↦ (none, [])
      | (id, n) ∷ rest ↦ (lookup (first_id id rest) live, live)
    ]

unfoldable pub list_nodes : ℕ → Nodes → List Node × Nodes
list_nodes now m = let m' = crown (as_followers (drop_expired now m)) in (values m', m')

pub record Elector : Type 0 where
  pub id : String
  pub ttl : ℤ
  pub node : Node
  pub started : Bool

-- `NewElector`, for a registry that is not nil. Its node is the zero Node.
unfoldable pub new_elector : String → ℤ → RegistryErr ⊎ Elector
new_elector id ttl =
    if id == "" || not (ltb_ℤ (pos 0) ttl)
    then inl bad_arguments
    else inr (record {
      id = id;
      ttl = ttl;
      node = record { id = ""; role = no_role; last_contact = 0; lease_until = 0 };
      started = false;
    })

-- `renew` of the elector: a failed renewal leaves the node as it was.
unfoldable pub renew_elector : ℕ → Elector → Nodes → Elector × Nodes
renew_elector now e m =
    let r = renew now e.id e.ttl m in
    (elim r.0 [ inl bad ↦ e | inr n ↦ record e { node = n } ], r.1)

unfoldable pub is_leader : Elector → Bool
is_leader e = is_leader_role e.node.role

-- The interface `Registry`; each call takes the reading of the clock that it makes.
pub record Registry (R : Type 0) : Type 0 where
  pub renew : ℕ → String → ℤ → R → (RegistryErr ⊎ Node) × R
  pub leader : ℕ → R → Option Node × R
  pub list : ℕ → R → List Node × R

-- The methods of a MemoryRegistry.
unfoldable pub memory_registry : Registry Nodes
memory_registry = record { renew = renew; leader = find_leader; list = list_nodes }
