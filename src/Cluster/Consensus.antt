-- ===== src/Cluster/Consensus.antt =====
-- internal/cluster/consensus.go: consensus groups within one process. A `*ConsensusGroup` is the key of
-- its entry in the registry, "group/id", since the registry never drops an entry.
pub mod Committed
pub mod Quorum
pub mod Reachable
use Prim.Native.String.{◌++◌}
use text.Mathlib.Text.{starts_with}
use job_raft.Base.{
  map, ltb_ℤ, insert, str_ltb, Assoc, ℕ, ◌*◌, ◌⊎◌, inl, inr, String, Bool, true, false, not, ◌&&◌,
  ◌||◌, Option, none, some, List, [], ◌∷◌, ◌==◌, ltb, if◌then◌else◌, lookup, is_some, length, ℤ,
  pos,
}
use mathlib.Core.List
use job_raft.Task.{add_time}
use job_raft.Scheduler.{add_one}

pub record LogEntry : Type 0 where
  pub term : ℕ
  pub index : ℕ
  pub command : List ℕ
  pub committed_at : ℕ

-- The state machine of a member; `apply_entry` gives the text of its error, if any.
pub record ReplicatedLog (M : Type 0) : Type 0 where
  pub apply_entry : LogEntry → M → Option String × M

-- `ConsensusGroup`: one node's membership in a group.
pub record ConsensusGroup (M : Type 0) : Type 0 where
  pub id : String
  pub group : String
  pub term : ℕ
  pub commit : ℕ
  pub log : List LogEntry
  pub machine : M

pub record ConsensusRegistry (M : Type 0) : Type 0 where
  pub groups : Assoc (ConsensusGroup M)
  pub leases : Assoc ℕ

unfoldable pub new_consensus_registry : {M : Type 0} → ConsensusRegistry M
new_consensus_registry = record { groups = []; leases = [] }

pub data ConsensusErr : Type 0 where
  missing_argument positive_ttl_required not_the_leader quorum_unavailable : ConsensusErr

unfoldable pub key_of : String → String → String
key_of group id = (group ++ "/") ++ id

-- `sort.Slice` of package sort, which may put equal identifiers in any order: a member goes before
-- the first one whose identifier is not less.
unfoldable pub insert_by_id {ℓ} :
    {M : Type ℓ} → (M → String) → String × M → List (String × M) → List (String × M)
insert_by_id id_of m [] = m ∷ []
insert_by_id id_of m (n ∷ ns) =
    let rest = insert_by_id id_of m ns in
    if str_ltb (id_of n.1) (id_of m.1) then n ∷ rest else m ∷ n ∷ ns

-- The entry of a key, changed.
unfoldable pub modify {ℓ} : {V : Type ℓ} → String → (V → V) → Assoc V → Assoc V
modify k f m = elim (lookup k m) [ none ↦ m | some v ↦ insert k (f v) m ]

module _ {M : Type 0} where
  -- `Join`: a nil state machine is none. The key is the group that it returns.
  unfoldable pub join :
      String
      → String
      → Option M
      → ConsensusRegistry M
      → (ConsensusErr ⊎ String) × ConsensusRegistry M
  join group id none r = (inl missing_argument, r)
  join group id (some machine) r =
      let key = key_of group id in
      if group == "" || id == ""
      then (inl missing_argument, r)
      else if is_some (lookup key r.groups)
      then (inr key, r)
      else (let g : ConsensusGroup M = record {
        id = id;
        group = group;
        term = 0;
        commit = 0;
        log = [];
        machine = machine;
      } in
          (inr key, record r { groups = insert key g r.groups }))

  -- The loop of `members`; the result is sorted by identifier.
  unfoldable pub members_of : String → Assoc (ConsensusGroup M) → List (String × ConsensusGroup M)
  members_of group [] = []
  members_of group ((key, g) ∷ rest) =
      let others = members_of group rest in
      if starts_with key (group ++ "/") then insert_by_id (λ m. m.id) (key, g) others else others

  -- The loop of `leader` over the members that are left.
  unfoldable pub best_leader :
      ℕ
      → String
      → Assoc ℕ
      → List (String × ConsensusGroup M)
      → Option (String × ConsensusGroup M)
      → Option (String × ConsensusGroup M)
  best_leader now group leases [] best = best
  best_leader now group leases ((key, g) ∷ rest) best =
      let live : Bool = elim (lookup (key_of group g.id) leases) [
        | none ↦ false
        | some until ↦ ltb now until
      ] in
      let better : Bool = elim best [ none ↦ true | some b ↦ str_ltb g.id b.1.id ] in
      best_leader now group leases rest (if live && better then some (key, g) else best)

  -- `leader`, as the key of the group that it returns.
  unfoldable pub leader_key : ℕ → String → ConsensusRegistry M → Option String
  leader_key now group r = elim (best_leader now group r.leases (members_of group r.groups) none) [
    | none ↦ none
    | some b ↦ some b.0
  ]

  -- `Renew` of the group with the key.
  unfoldable pub renew_lease :
      ℕ → ℤ → ConsensusGroup M → ConsensusRegistry M → Option ConsensusErr × ConsensusRegistry M
  renew_lease now ttl g r =
      if not (ltb_ℤ (pos 0) ttl)
      then (some positive_ttl_required, r)
      else (none, record r { leases = insert (key_of g.group g.id) (add_time now ttl) r.leases })

  -- `leader(…) == g`
  unfoldable pub leads : ℕ → String → ConsensusGroup M → ConsensusRegistry M → Bool
  leads now key g r = elim (leader_key now g.group r) [ none ↦ false | some k ↦ k == key ]

  -- The members append the entry that they applied.
  unfoldable pub commit_all :
      LogEntry → List String → Assoc (ConsensusGroup M) → Assoc (ConsensusGroup M)
  commit_all entry [] groups = groups
  commit_all entry (k ∷ ks) groups = commit_all entry ks (
      modify k
        (λ m. record m {
          log = List.◌++◌ m.log (entry ∷ []);
          commit = entry.index;
          term = entry.term;
        })
        groups)

  module _ (machines : ReplicatedLog M) where
    -- The loop of `Apply` over the members: the keys of those whose machine took the entry.
    unfoldable pub apply_machines :
        LogEntry → List String → Assoc (ConsensusGroup M) → List String × Assoc (ConsensusGroup M)
    apply_machines entry [] groups = ([], groups)
    apply_machines entry (k ∷ ks) groups = elim (lookup k groups) [
      | none ↦ apply_machines entry ks groups
      | some m ↦
          let r = machines.apply_entry entry m.machine in
          let (applied, groups') =
            apply_machines entry ks (insert k (record m { machine = r.1 }) groups) in
          (elim r.0 [ none ↦ k ∷ applied | some _ ↦ applied ], groups')
    ]

    -- `Apply` of the group with the key: the readings of the clock are those of the leader's lease
    -- and of the entry.
    unfoldable pub apply_command :
        ℕ
        → ℕ
        → List ℕ
        → String
        → ConsensusGroup M
        → ConsensusRegistry M
        → (ConsensusErr ⊎ LogEntry) × ConsensusRegistry M
    apply_command now now_entry command key g r =
        if not (leads now key g r)
        then (inl not_the_leader, r)
        else let keys = map (λ m. m.0) (members_of g.group r.groups) in
          let entry : LogEntry = record {
            term = add_one g.term;
            index = add_one g.commit;
            command = command;
            committed_at = now_entry;
          } in
          let started = modify key (λ m. record m { term = add_one g.term }) r.groups in
          let (applied, groups) = apply_machines entry keys started in
          if not (ltb (length keys) (length applied * 2))
          then (inl quorum_unavailable, record r { groups = groups })
          else (inr entry, record r { groups = commit_all entry applied groups })
