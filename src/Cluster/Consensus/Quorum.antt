-- ===== src/Cluster/Consensus/Quorum.antt =====
-- internal/cluster/consensus.go: what a command that is applied leaves in the logs of the members.
use job_raft.Scheduler.{add_one}
use job_raft.Cluster.Consensus.Committed.{
  commit_all-All, HasCommitted, kept_of, Present, insert-committed, committed,
}
use job_raft.Base.{
  ltb→lt, All-map, map, All, insert, Assoc, ℕ, ◌*◌, ◌≡◌, refl, sym, ap, ◌∙◌, ◌<◌, ◌⊎◌, inl, inr,
  String, none, some, List, [], ◌∷◌, ltb, Bool-cases, Option-cases, lookup, length,
}
use job_raft.Cluster.Consensus.{
  quorum_unavailable, not_the_leader, leads, members_of, modify, apply_command, apply_machines,
  ReplicatedLog, LogEntry, ConsensusGroup, ConsensusRegistry, ConsensusErr,
}

-- The first list is the second one without some of its entries.
pub data Sublist {A : Type 0} : List A → List A → Type 0 where
  nil : Sublist [] []
  left_out : {x : A} {xs ys : List A} → Sublist xs ys → Sublist xs (x ∷ ys)
  kept : {x : A} {xs ys : List A} → Sublist xs ys → Sublist (x ∷ xs) (x ∷ ys)

module _ {M : Type 0} where
  module _ (machines : ReplicatedLog M) where
    -- The machines' part of `Apply` changes no log, and finds members of the registry.
    pub apply_machines-committed :
        (entry : LogEntry) (ks : List String) (groups : Assoc (ConsensusGroup M)) (j : String)
        → committed j (apply_machines machines entry ks groups).1 ≡ committed j groups
    unfolding apply_machines
    apply_machines-committed entry [] groups j = refl
    apply_machines-committed entry (k ∷ ks) groups j = elim (Option-cases (lookup k groups)) [
      | inl absent ↦
          ap (λ r. committed j r.1) (skipped absent) ∙ apply_machines-committed entry ks groups j
      | inr (m, found) ↦
          let m' = record m { machine = (machines.apply_entry entry m.machine).1 } in
          ap (λ r. committed j r) (taken m found)
          ∙ apply_machines-committed entry ks (insert k m' groups) j
          ∙ insert-committed k j m m' groups found refl refl
    ]
      where
        skipped :
            lookup k groups ≡ none
            → apply_machines machines entry (k ∷ ks) groups
              ≡ apply_machines machines entry ks groups
        skipped absent = rw (absent, apply_machines) refl

        taken :
            (m : ConsensusGroup M)
            → lookup k groups ≡ some m
            → (apply_machines machines entry (k ∷ ks) groups).1
              ≡ (apply_machines machines entry ks (
                  insert k
                    (record m { machine = (machines.apply_entry entry m.machine).1 })
                    groups)).1
        taken m found = rw (found, apply_machines) refl

    apply_machines-Sublist :
        (entry : LogEntry) (ks : List String) (groups : Assoc (ConsensusGroup M))
        → Sublist (apply_machines machines entry ks groups).0 ks
    unfolding apply_machines
    apply_machines-Sublist entry [] groups = nil
    apply_machines-Sublist entry (k ∷ ks) groups = elim (Option-cases (lookup k groups)) [
      | inl absent ↦ rw (absent, apply_machines) (left_out (apply_machines-Sublist entry ks groups))
      | inr (m, found) ↦
          let r = machines.apply_entry entry m.machine in
          let rest =
            apply_machines-Sublist entry ks (insert k (record m { machine = r.1 }) groups) in
          elim (Option-cases r.0) [
            | inl took ↦ rw (found, took, apply_machines) (kept rest)
            | inr (problem, refused) ↦ rw (found, refused, apply_machines) (left_out rest)
          ]
    ]

    apply_machines-Present :
        (entry : LogEntry) (ks : List String) (groups : Assoc (ConsensusGroup M))
        → All (Present groups) (apply_machines machines entry ks groups).0
    unfolding apply_machines
    apply_machines-Present entry [] groups = tt
    apply_machines-Present entry (k ∷ ks) groups = elim (Option-cases (lookup k groups)) [
      | inl absent ↦ rw (absent, apply_machines) (apply_machines-Present entry ks groups)
      | inr (m, found) ↦
          let r = machines.apply_entry entry m.machine in
          let m' = record m { machine = r.1 } in
          let same : (j : String) → committed j (insert k m' groups) ≡ committed j groups =
            λ j. insert-committed k j m m' groups found refl refl in
          let rest =
            All-map _ _ (λ j h. (h.0, h.1, sym (same j) ∙ h.2)) _
              (apply_machines-Present entry ks (insert k m' groups)) in
          elim (Option-cases r.0) [
            | inl took ↦
                rw (found, took, apply_machines) ((m.log, m.commit, ap kept_of found), rest)
            | inr (problem, refused) ↦ rw (found, refused, apply_machines) rest
          ]
    ]

    -- `Apply` fails and commits nothing anywhere; or it returns an entry, and the members whose
    -- machines took it, more than half of the group's, have it as the last one of their logs, with
    -- its index as their commit index. The group is the registry's entry of its key.
    pub apply_command-quorum :
        (now now_entry : ℕ) (command : List ℕ) (key : String) (g : ConsensusGroup M)
        (r : ConsensusRegistry M)
        → lookup key r.groups ≡ some g
        → ((e : ConsensusErr) × ((apply_command machines now now_entry command key g r).0 ≡ inl e)
            × ((j : String)
                → committed j (apply_command machines now now_entry command key g r).1.groups
                  ≡ committed j r.groups))
          ⊎ ((entry : LogEntry) × (applied : List String) × ((apply_command machines now now_entry
                  command key g r).0
                ≡ inr entry)
              × Sublist applied (map (λ m. m.0) (members_of g.group r.groups))
              × (length (map (λ m. m.0) (members_of g.group r.groups)) < length applied * 2)
              × All
                  (HasCommitted entry
                    (apply_command machines now now_entry command key g r).1.groups)
                  applied)
    unfolding apply_command modify
    apply_command-quorum now now_entry command key g r found =
        elim (Bool-cases (leads now key g r)) [
          | inr follows ↦ inl (
            not_the_leader,
            rw (follows, apply_command) refl,
            λ j. rw (follows, apply_command) refl,
          )
          | inl first ↦
              let keys = map (λ m. m.0) (members_of g.group r.groups) in
              let entry : LogEntry = record {
                term = add_one g.term;
                index = add_one g.commit;
                command = command;
                committed_at = now_entry;
              } in
              let g' = record g { term = add_one g.term } in
              let started = modify key (λ m. record m { term = add_one g.term }) r.groups in
              let began : started ≡ insert key g' r.groups = rw (found, modify) refl in
              let same : (j : String) → committed j started ≡ committed j r.groups = λ j.
                ap (committed j) began ∙ insert-committed key j g g' r.groups found refl refl in
              let p = apply_machines machines entry keys started in
              elim (Bool-cases (ltb (length keys) (length p.0 * 2))) [
                | inr few ↦ inl (
                  quorum_unavailable,
                  rw (first, few, apply_command) refl,
                  λ j.
                      rw (first, few, apply_command)
                        (apply_machines-committed entry keys started j ∙ same j),
                )
                | inl many ↦ inr (
                  entry,
                  p.0,
                  rw (first, many, apply_command) refl,
                  apply_machines-Sublist entry keys started,
                  ltb→lt _ _ many,
                  rw (first, many, apply_command)
                      (commit_all-All entry p.0 p.1 (
                        All-map _ _
                          (λ j h. (h.0, h.1, apply_machines-committed entry keys started j ∙ h.2)) _
                          (apply_machines-Present entry keys started))),
                )
              ]
        ]
