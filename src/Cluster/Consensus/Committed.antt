-- ===== src/Cluster/Consensus/Committed.antt =====
-- internal/cluster/consensus.go: what the members of a group have committed.
use job_raft.Base.{
  All-map, All, lookup-insert, insert, Assoc, ℕ, ◌≡◌, refl, sym, ap, ◌∙◌, inl, inr, String, Option,
  none, some, List, [], ◌∷◌, ◌++◌, arith, eq_iff, eq_refl, ◌==◌, if◌then◌else◌, Bool-cases,
  Option-cases, lookup,
}
use job_raft.Cluster.Consensus.{modify, commit_all, LogEntry, ConsensusGroup}

-- The index of the last entry of a log, 0 without one.
abbrev pub last_index : List LogEntry → ℕ
last_index [] = 0
last_index (e ∷ []) = e.index
last_index (e ∷ f ∷ es) = last_index (f ∷ es)

last_index-append : (es : List LogEntry) (e : LogEntry) → last_index (es ++ (e ∷ [])) ≡ e.index
last_index-append [] e = refl
last_index-append (f ∷ []) e = refl
last_index-append (f ∷ g ∷ es) e = last_index-append (g ∷ es) e

abbrev pub kept_of : {M : Type 0} → Option (ConsensusGroup M) → Option (List LogEntry × ℕ)
kept_of none = none
kept_of (some m) = some (m.log, m.commit)

-- What is committed of a member: its log and its commit index.
abbrev pub committed : {M : Type 0} → String → Assoc (ConsensusGroup M) → Option (List LogEntry × ℕ)
committed k groups = kept_of (lookup k groups)

abbrev pub log_part : Option (List LogEntry × ℕ) → List LogEntry
log_part none = []
log_part (some (log, commit)) = log

abbrev pub commit_part : Option (List LogEntry × ℕ) → ℕ
commit_part none = 0
commit_part (some (log, commit)) = commit

-- What a member has after it committed an entry.
abbrev pub after_entry : LogEntry → Option (List LogEntry × ℕ) → Option (List LogEntry × ℕ)
after_entry entry none = none
after_entry entry (some (log, commit)) = some (log ++ (entry ∷ []), entry.index)

-- Of every member, the commit index is that of the last entry of the log.
abbrev pub IsCommitted : {M : Type 0} → Assoc (ConsensusGroup M) → Type 0
IsCommitted groups =
    (k : String) (log : List LogEntry) (commit : ℕ)
    → committed k groups ≡ some (log, commit)
    → commit ≡ last_index log

-- The member's log ends with the entry, and its commit index is the entry's.
abbrev pub HasCommitted : {M : Type 0} → LogEntry → Assoc (ConsensusGroup M) → String → Type 0
HasCommitted entry groups k =
    (log : List LogEntry) × (committed k groups ≡ some (log ++ (entry ∷ []), entry.index))

module _ {M : Type 0} where
  pub committed-insert :
      (k j : String) (m : ConsensusGroup M) (groups : Assoc (ConsensusGroup M))
      → committed j (insert k m groups)
        ≡ (if k == j then some (m.log, m.commit) else committed j groups)
  committed-insert k j m groups = elim (Bool-cases (k == j)) [
    | inl hit ↦ rw hit (ap kept_of (rw hit at (lookup-insert k j m groups)))
    | inr other ↦ rw other (ap kept_of (rw other at (lookup-insert k j m groups)))
  ]

  -- A change of a member that keeps what it committed changes no member's.
  pub insert-committed :
      (k j : String) (m m' : ConsensusGroup M) (groups : Assoc (ConsensusGroup M))
      → lookup k groups ≡ some m
      → m'.log ≡ m.log
      → m'.commit ≡ m.commit
      → committed j (insert k m' groups) ≡ committed j groups
  insert-committed k j m m' groups found same same' = elim (Bool-cases (k == j)) [
    | inr other ↦ rw other at (committed-insert k j m' groups)
    | inl hit ↦
        (rw hit at (committed-insert k j m' groups))
        ∙ (λ i. some (same i, same' i))
        ∙ sym (ap kept_of found)
        ∙ ap (λ x. committed x groups) ((eq_iff k j).0 hit)
  ]

  commit_one-committed :
      (entry : LogEntry) (k j : String) (groups : Assoc (ConsensusGroup M))
      → committed j (commit_all entry (k ∷ []) groups)
        ≡ (if k == j then after_entry entry (committed j groups) else committed j groups)
  unfolding commit_all modify
  commit_one-committed entry k j groups =
      let next = commit_all entry (k ∷ []) groups in
      elim (Option-cases (lookup k groups)) [
        | inl absent ↦
            let one : next ≡ groups = rw (absent, modify, commit_all) refl in
            elim (Bool-cases (k == j)) [
              | inr other ↦ rw other (ap (committed j) one)
              | inl hit ↦
                  let gone : committed j groups ≡ none =
                    ap (λ x. committed x groups) (sym ((eq_iff k j).0 hit)) ∙ ap kept_of absent in
                  rw hit (ap (committed j) one ∙ gone ∙ sym (ap (after_entry entry) gone))
            ]
        | inr (m, found) ↦
            let m' = record m {
              log = m.log ++ (entry ∷ []);
              commit = entry.index;
              term = entry.term;
            } in
            let one : next ≡ insert k m' groups = rw (found, modify, commit_all) refl in
            elim (Bool-cases (k == j)) [
              | inr other ↦
                  rw other (ap (committed j) one ∙ (rw other at (committed-insert k j m' groups)))
              | inl hit ↦
                  let there : committed j groups ≡ some (m.log, m.commit) =
                    ap (λ x. committed x groups) (sym ((eq_iff k j).0 hit)) ∙ ap kept_of found in
                  rw hit (
                    ap (committed j) one
                    ∙ (rw hit at (committed-insert k j m' groups))
                    ∙ sym (ap (after_entry entry) there))
            ]
      ]

  commit_one-IsCommitted :
      (entry : LogEntry) (k : String) (groups : Assoc (ConsensusGroup M))
      → IsCommitted groups
      → IsCommitted (commit_all entry (k ∷ []) groups)
  commit_one-IsCommitted entry k groups fine j log commit found = elim (Bool-cases (k == j)) [
    | inr other ↦
        fine j log commit (sym (rw other at (commit_one-committed entry k j groups)) ∙ found)
    | inl hit ↦
        appended (committed j groups)
          (sym (rw hit at (commit_one-committed entry k j groups)) ∙ found)
  ]
    where
      appended :
          (o : Option (List LogEntry × ℕ))
          → after_entry entry o ≡ some (log, commit)
          → commit ≡ last_index log
      appended none h = absurd (ground (arith, h))
      appended (some (log', commit')) h =
          sym (ap commit_part h)
          ∙ sym (last_index-append log' entry)
          ∙ ap (λ o. last_index (log_part o)) h

  commit_one-HasCommitted :
      (entry : LogEntry) (j k : String) (groups : Assoc (ConsensusGroup M))
      → HasCommitted entry groups k
      → HasCommitted entry (commit_all entry (j ∷ []) groups) k
  commit_one-HasCommitted entry j k groups (log, h) = elim (Bool-cases (j == k)) [
    | inr other ↦ (log, (rw other at (commit_one-committed entry j k groups)) ∙ h)
    | inl hit ↦ (
      log ++ (entry ∷ []),
      (rw hit at (commit_one-committed entry j k groups)) ∙ ap (after_entry entry) h,
    )
  ]

  commit_one-new :
      (entry : LogEntry) (k : String) (log : List LogEntry) (commit : ℕ)
      (groups : Assoc (ConsensusGroup M))
      → committed k groups ≡ some (log, commit)
      → HasCommitted entry (commit_all entry (k ∷ []) groups) k
  commit_one-new entry k log commit groups h =
      (log, (rw (eq_refl k) at (commit_one-committed entry k k groups)) ∙ ap (after_entry entry) h)

  -- Committing one member after the other.
  commit_all-cons :
      (entry : LogEntry) (k : String) (ks : List String) (groups : Assoc (ConsensusGroup M))
      → commit_all entry (k ∷ ks) groups ≡ commit_all entry ks (commit_all entry (k ∷ []) groups)
  unfolding commit_all
  commit_all-cons entry k ks groups = refl

  pub commit_all-IsCommitted :
      (entry : LogEntry) (ks : List String) (groups : Assoc (ConsensusGroup M))
      → IsCommitted groups
      → IsCommitted (commit_all entry ks groups)
  unfolding commit_all
  commit_all-IsCommitted entry [] groups fine = fine
  commit_all-IsCommitted entry (k ∷ ks) groups fine =
      commit_all-IsCommitted entry ks (commit_all entry (k ∷ []) groups)
        (commit_one-IsCommitted entry k groups fine)

  commit_all-HasCommitted :
      (entry : LogEntry) (ks : List String) (k : String) (groups : Assoc (ConsensusGroup M))
      → HasCommitted entry groups k
      → HasCommitted entry (commit_all entry ks groups) k
  unfolding commit_all
  commit_all-HasCommitted entry [] k groups h = h
  commit_all-HasCommitted entry (j ∷ js) k groups h =
      commit_all-HasCommitted entry js k (commit_all entry (j ∷ []) groups)
        (commit_one-HasCommitted entry j k groups h)

  -- A key has a member.
  abbrev pub Present : Assoc (ConsensusGroup M) → String → Type 0
  Present groups k =
      (log : List LogEntry) × (commit : ℕ) × (committed k groups ≡ some (log, commit))

  commit_one-Present :
      (entry : LogEntry) (j k : String) (groups : Assoc (ConsensusGroup M))
      → Present groups k
      → Present (commit_all entry (j ∷ []) groups) k
  commit_one-Present entry j k groups (log, commit, h) = elim (Bool-cases (j == k)) [
    | inr other ↦ (log, commit, (rw other at (commit_one-committed entry j k groups)) ∙ h)
    | inl hit ↦ (
      log ++ (entry ∷ []),
      entry.index,
      (rw hit at (commit_one-committed entry j k groups)) ∙ ap (after_entry entry) h,
    )
  ]

  pub commit_all-All :
      (entry : LogEntry) (ks : List String) (groups : Assoc (ConsensusGroup M))
      → All (Present groups) ks
      → All (HasCommitted entry (commit_all entry ks groups)) ks
  unfolding commit_all
  commit_all-All entry [] groups all = tt
  commit_all-All entry (k ∷ ks) groups ((log, commit, h), rest) =
      let next = commit_all entry (k ∷ []) groups in
      (
        commit_all-HasCommitted entry ks k next (commit_one-new entry k log commit groups h),
        commit_all-All entry ks next
            (All-map _ _ (λ j. commit_one-Present entry k j groups) ks rest),
      )
