-- ===== src/Cluster/Consensus/Reachable.antt =====
-- internal/cluster/consensus.go: the life of a registry of groups, as a sequence of calls.
use job_raft.Cluster.Consensus.Quorum.{apply_machines-committed}
use job_raft.Scheduler.{add_one}
use job_raft.Cluster.Consensus.Committed.{
  commit_all-IsCommitted, insert-committed, committed-insert, log_part, commit_part, last_index,
  committed, IsCommitted,
}
use job_raft.Base.{
  refl, ◌*◌, length, ltb, insert, pos, map, ltb_ℤ, Option-cases, Assoc, ℕ, ◌≡◌, sym, ap, ◌∙◌, inl,
  inr, String, ◌||◌, Option, none, some, List, [], ◌∷◌, ◌==◌, Bool-cases, lookup, is_some, ℤ,
}
use job_raft.Cluster.Consensus.{
  apply_machines, members_of, leads, new_consensus_registry, modify, key_of, LogEntry,
  apply_command, join, ReplicatedLog, ConsensusGroup, ConsensusRegistry, renew_lease,
}

-- A call of `Join`, or of `Renew` or `Apply` of the group with a key.
pub data GroupCall (M : Type 0) : Type 0 where
  joins : String → String → Option M → GroupCall M
  extends : ℕ → ℤ → String → GroupCall M
  applies : ℕ → ℕ → List ℕ → String → GroupCall M

module _ {M : Type 0} (machines : ReplicatedLog M) where
  unfoldable pub call_group : GroupCall M → ConsensusRegistry M → ConsensusRegistry M
  call_group (joins group id machine) r = (join group id machine r).1
  call_group (extends now ttl key) r = elim (lookup key r.groups) [
    | none ↦ r
    | some g ↦ (renew_lease now ttl g r).1
  ]
  call_group (applies now now_entry command key) r = elim (lookup key r.groups) [
    | none ↦ r
    | some g ↦ (apply_command machines now now_entry command key g r).1
  ]

  unfoldable pub call_all : List (GroupCall M) → ConsensusRegistry M → ConsensusRegistry M
  call_all [] r = r
  call_all (c ∷ cs) r = call_all cs (call_group c r)

  from_parts :
      (o : Option (List LogEntry × ℕ)) (log : List LogEntry) (commit : ℕ)
      → commit_part o ≡ last_index (log_part o)
      → o ≡ some (log, commit)
      → commit ≡ last_index log
  from_parts o log commit h found =
      sym (ap commit_part found) ∙ h ∙ ap (λ x. last_index (log_part x)) found

  join-IsCommitted :
      (group id : String) (machine : Option M) (r : ConsensusRegistry M)
      → IsCommitted r.groups
      → IsCommitted (join group id machine r).1.groups
  unfolding join
  join-IsCommitted group id none r fine = fine
  join-IsCommitted group id (some machine) r fine =
      let g : ConsensusGroup M = record {
        id = id;
        group = group;
        term = 0;
        commit = 0;
        log = [];
        machine = machine;
      } in
      elim (Bool-cases (group == "" || id == "")) [
        | inl missing ↦ rw (missing, join) fine
        | inr given ↦ elim (Bool-cases (is_some (lookup (key_of group id) r.groups))) [
          | inl there ↦ rw (given, there, join) fine
          | inr fresh ↦
              rw (given, fresh, join)
                (λ j log commit found. elim (Bool-cases (key_of group id == j)) [
                  | inr other ↦
                      fine j log commit (
                        sym (rw other at (committed-insert (key_of group id) j g r.groups)) ∙ found)
                  | inl hit ↦
                      from_parts (some ([], 0)) log commit refl
                        (sym (rw hit at (committed-insert (key_of group id) j g r.groups)) ∙ found)
                ])
        ]
      ]

  same-IsCommitted :
      (groups groups' : Assoc (ConsensusGroup M))
      → ((j : String) → committed j groups' ≡ committed j groups)
      → IsCommitted groups
      → IsCommitted groups'
  same-IsCommitted groups groups' same fine j log commit found =
      fine j log commit (sym (same j) ∙ found)

  apply_command-IsCommitted :
      (now now_entry : ℕ) (command : List ℕ) (key : String) (g : ConsensusGroup M)
      (r : ConsensusRegistry M)
      → lookup key r.groups ≡ some g
      → IsCommitted r.groups
      → IsCommitted (apply_command machines now now_entry command key g r).1.groups
  unfolding apply_command modify
  apply_command-IsCommitted now now_entry command key g r found fine =
      elim (Bool-cases (leads now key g r)) [
        | inr follows ↦ rw (follows, apply_command) fine
        | inl first ↦
            let keys = map (λ m. m.0) (members_of g.group r.groups) in
            let entry : LogEntry = record {
              term = add_one g.term;
              index = add_one g.commit;
              command = command;
              committed_at = now_entry;
            } in
            let g' = record g { term = add_one g.term } in
            let started = modify key (λ m. record m { term = add_one g.term }) r.groups in
            let began : started ≡ insert key g' r.groups = rw (found, modify) refl in
            let p = apply_machines machines entry keys started in
            let held =
              same-IsCommitted r.groups p.1
                (λ j.
                  apply_machines-committed machines entry keys started j
                  ∙ ap (committed j) began
                  ∙ insert-committed key j g g' r.groups found refl refl)
                fine in
            elim (Bool-cases (ltb (length keys) (length p.0 * 2))) [
              | inr few ↦ rw (first, few, apply_command) held
              | inl many ↦
                  rw (first, many, apply_command) (commit_all-IsCommitted entry p.0 p.1 held)
            ]
      ]

  call_group-IsCommitted :
      (c : GroupCall M) (r : ConsensusRegistry M)
      → IsCommitted r.groups
      → IsCommitted (call_group c r).groups
  unfolding call_group renew_lease
  call_group-IsCommitted (joins group id machine) r fine = join-IsCommitted group id machine r fine
  call_group-IsCommitted (extends now ttl key) r fine = elim (Option-cases (lookup key r.groups)) [
    | inl absent ↦ rw (absent, call_group) fine
    | inr (g, found) ↦ elim (Bool-cases (ltb_ℤ (pos 0) ttl)) [
      | inl lasts ↦ rw (found, lasts, renew_lease, call_group) fine
      | inr over ↦ rw (found, over, renew_lease, call_group) fine
    ]
  ]
  call_group-IsCommitted (applies now now_entry command key) r fine =
      elim (Option-cases (lookup key r.groups)) [
        | inl absent ↦ rw (absent, call_group) fine
        | inr (g, found) ↦
            rw (found, call_group)
              (apply_command-IsCommitted now now_entry command key g r found fine)
      ]

  from_any-IsCommitted :
      (cs : List (GroupCall M)) (r : ConsensusRegistry M)
      → IsCommitted r.groups
      → IsCommitted (call_all cs r).groups
  unfolding call_all
  from_any-IsCommitted [] r fine = fine
  from_any-IsCommitted (c ∷ cs) r fine =
      from_any-IsCommitted cs (call_group c r) (call_group-IsCommitted c r fine)

  -- However groups are joined, leases renewed and commands applied, and whichever machines fail, the
  -- commit index of every member is the index of the last entry of its log, and 0 for an empty log.
  -- The registry starts without groups; the member has the log and the commit index that are named.
  pub call_all-last_index :
      (cs : List (GroupCall M)) (k : String) (log : List LogEntry) (commit : ℕ)
      → committed k (call_all cs new_consensus_registry).groups ≡ some (log, commit)
      → commit ≡ last_index log
  unfolding new_consensus_registry lookup
  call_all-last_index cs =
      from_any-IsCommitted cs new_consensus_registry
        (λ j log commit found. from_parts none log commit refl found)
