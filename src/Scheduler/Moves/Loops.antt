-- ===== src/Scheduler/Moves/Loops.antt =====
-- internal/scheduler/scheduler.go: the loops over listed tasks only take steps of the tasks' lives.
use job_raft.Scheduler.Moves.Methods.{fail_unready_task-Runs}
use job_raft.Scheduler.Claim.BestDue.{best_due-Claimable}
use job_raft.Scheduler.Metrics.{observe_queue_latency}
use job_raft.Scheduler.Moves.{
  Edge, write_if_state-Moves, Runs-one, write_if_state, here, Runs-trans, Result, Runs-of_eq, Runs,
}
use job_raft.Scheduler.{reserve, dependencies_ready, Scheduler}
use job_raft.Task.{claim_lost}
use job_raft.Base.{
  ℕ, zero, suc, ◌≡◌, refl, inl, inr, String, Bool, true, not, ◌&&◌, ◌||◌, Option, none, some, List,
  arith, ◌==◌, ltb, Bool-cases, Option-cases, lookup, is_some,
}
use job_raft.Store.Contract.{IsLawful}
use job_raft.Scheduler.Claim.{
  mark, best_due, next, is_claimable, done, claim_loop, try_candidate, settle, claimed_task,
  commit_claim, Attempt,
}
use job_raft.Store.{err, ok, Result-cases, Store}
use job_raft.Task.{Task}

module _ {S : Type 0} (api : Store S) (law : IsLawful api) where
  pub commit_claim-Runs :
      (now : ℕ) (worker id : String) (s : Scheduler S)
      → Runs api s.store (commit_claim api now worker id s).1.store
  unfolding commit_claim claimed_task
  commit_claim-Runs now worker id s = elim (Result-cases (api.get id s.store)) [
    | inl (e, p) ↦ Runs-of_eq (ground arith)
    | inr (t, p) ↦ elim (Bool-cases (is_claimable t.status && not (ltb now t.run_at))) [
      | inr no_claim ↦ Runs-of_eq (ground arith)
      | inl fits ↦
          let u = claimed_task now worker id t s in
          let written : (commit_claim api now worker id s).1.store
              ≡ (write_if_state api id t.status t.lease_token u s.store).1 =
            ground arith in
          rw written (
            Runs-one (
              write_if_state-Moves api law id t.status t.lease_token u s.store
                (λ current _ q _. Edge.claimed (rw q (ground arith)) refl)))
    ]
  ]

-- The store after a round of `Claim`.
abbrev attempt_store : {S : Type 0} → Attempt S → S
attempt_store (done r s) = s.store
attempt_store (next s) = s.store

settle-store :
    {S : Type 0} (now : ℕ) (id : String) (r : Result Task × Scheduler S)
    → attempt_store (settle now id r) ≡ r.1.store
unfolding settle observe_queue_latency
settle-store now id (ok t, s) = refl
settle-store now id (err claim_lost, s) = refl
settle-store now id (err _, s) = refl

module _ {S : Type 0} (api : Store S) (law : IsLawful api) where
  try_candidate-Runs :
      (now now' : ℕ) (worker : String) (t : Task) (s : Scheduler S)
      → is_claimable t.status ≡ true
      → Runs api s.store (attempt_store (try_candidate api now now' worker t s))
  unfolding try_candidate
  try_candidate-Runs now now' worker t s h =
      elim (Bool-cases (not ((dependencies_ready api t.depends_on s.store).1 == ""))) [
        | inl problem ↦
            rw (problem, try_candidate) (fail_unready_task-Runs api law now t _ s.store h)
        | inr fine ↦
            elim (Bool-cases (
              not (dependencies_ready api t.depends_on s.store).0
              || is_some (lookup t.id s.running))) [
                | inl waits ↦ Runs-of_eq (ground arith)
                | inr ready ↦
                    let r = commit_claim api now worker t.id (reserve t.id s) in
                    let settled : attempt_store (try_candidate api now now' worker t s)
                        ≡ attempt_store (settle now' t.id r) =
                      ground arith in
                    rw (settled, settle-store now' t.id r)
                      (commit_claim-Runs api law now worker t.id (reserve t.id s))
              ]
      ]

  -- Where the loop of `Claim` ends, if the fuel lasts.
  abbrev pub EndsIn : S → Option (Result Task × Scheduler S) → Type 0
  EndsIn st none = Unit {0}
  EndsIn st (some (r, s)) = Runs api st s.store

  EndsIn-trans :
      (a b : S) (o : Option (Result Task × Scheduler S)) → Runs api a b → EndsIn b o → EndsIn a o
  EndsIn-trans a b none r e = tt
  EndsIn-trans a b (some x) r e = Runs-trans r e

  after_attempt :
      (st : S) (a : Attempt S) (rest : Scheduler S → Option (Result Task × Scheduler S))
      → Runs api st (attempt_store a)
      → ((s : Scheduler S) → EndsIn s.store (rest s))
      → EndsIn st (elim a [ done r s ↦ some (r, s) | next s ↦ rest s ])
  after_attempt st (done r s) rest h ih = h
  after_attempt st (next s) rest h ih = EndsIn-trans st s.store (rest s) h (ih s)

  pub claim_loop-Runs :
      (fuel : ℕ) (clock : ℕ → ℕ) (now : ℕ) (worker : String) (items : List Task) (skip : List Bool)
      (s : Scheduler S)
      → EndsIn s.store (claim_loop api fuel clock now worker items skip s)
  unfolding claim_loop
  claim_loop-Runs zero clock now worker items skip s = tt
  claim_loop-Runs (suc fuel) clock now worker items skip s =
      elim (Option-cases (best_due items now skip)) [
        | inl over ↦ rw (over, claim_loop) here
        | inr ((index, t), found) ↦
            let fits = (best_due-Claimable now items skip found).0 in
            let try = try_candidate-Runs (clock 0) (clock 1) worker t s fits in
            rw (found, claim_loop)
              (after_attempt s.store (try_candidate api (clock 0) (clock 1) worker t s) _ try
                (claim_loop-Runs fuel (λ n. clock (suc n)) now worker items (mark index skip)))
      ]
