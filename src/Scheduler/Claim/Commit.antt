-- ===== src/Scheduler/Claim/Commit.antt =====
-- internal/scheduler/scheduler.go: what `commitClaim` does at a store that keeps the contract.
use job_raft.Scheduler.Claim.BestDue.{Claimable}
use job_raft.Scheduler.Moves.{write_if_state-ComparesAndSets}
use job_raft.Task.{claim_lost, Task}
use job_raft.Scheduler.Claim.{claimed_task, is_claimable, commit_claim}
use job_raft.Store.Contract.{Replaced, IsLawful}
use job_raft.Store.{ok, err, Result-cases, Result, Store}
use job_raft.Base.{ℕ, ◌≡◌, ◌⊎◌, inl, inr, String, not, ◌&&◌, arith, ltb, Bool-cases}
use job_raft.Scheduler.{write_if_state, Scheduler}

module _ {S : Type 0} (api : Store S) (law : IsLawful api) where
  -- The cases of a commit: refused with nothing changed, or the stored record was claimed.
  abbrev pub CommitCases : ℕ → String → String → Scheduler S → Result Task × Scheduler S → Type 0
  CommitCases now worker id s r =
      ((r.0 ≡ err claim_lost) × (r.1 ≡ s))
      ⊎ ((current : Task) × (api.get id s.store ≡ ok current)
          × Claimable now current
          × (r.0 ≡ ok (claimed_task now worker id current s))
          × Replaced api id (claimed_task now worker id current s) s.store r.1.store
          × (r.1.lease_ttl ≡ s.lease_ttl))

  pub commit_claim_cases :
      (now : ℕ) (worker id : String) (s : Scheduler S)
      → CommitCases now worker id s (commit_claim api now worker id s)
  unfolding commit_claim
  commit_claim_cases now worker id s = elim (Result-cases (api.get id s.store)) [
    | inl (e, p) ↦ inl (ground arith, ground arith)
    | inr (t, p) ↦ elim (Bool-cases (is_claimable t.status && not (ltb now t.run_at))) [
      | inr no_claim ↦ inl (ground arith, ground arith)
      | inl fits ↦
          let u = claimed_task now worker id t s in
          elim (write_if_state-ComparesAndSets api law id t.status t.lease_token u s.store) [
            | inl (e, q, kept) ↦ inl (ground arith, ground arith)
            | inr (current, found, _, _, valid, wrote, new) ↦
                let written : (commit_claim api now worker id s).1.store
                    ≡ (write_if_state api id t.status t.lease_token u s.store).1 =
                  ground arith in
                inr (t, p, (ground arith, ground arith), ground arith, rw written new, ground arith)
          ]
    ]
  ]
