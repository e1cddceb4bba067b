-- ===== src/Scheduler/Claim.antt =====
-- internal/scheduler/scheduler.go: how a worker claims the best due task.
pub mod BestDue
pub mod Total
pub mod Exclusive
pub mod Handout
pub mod Commit
use Prim.Native.String.{compare}
use text.Mathlib.Text.{is_lt}
use job_raft.Base.{
  str_ltb, ℕ, zero, suc, String, Bool, true, false, ◌||◌, not, Option, none, some, List, [], ◌∷◌,
  ltb, ltb_ℤ, eq_ℤ, eq_ℕ, inc_int, if◌then◌else◌, ◌==◌, lookup, length, is_some,
}
use job_raft.Task.{
  Status, pending, running, retrying, status_eq, Task, no_task, no_task_available, not_leader,
  worker_unhealthy, claim_lost, add_time,
}
use job_raft.Store.{Result, ok, err, Store}
use job_raft.Scheduler.{
  Scheduler, gate_closed, reserve, unreserve, write_if_state, dependencies_ready, fail_unready_task,
  lease_token_of,
}
use job_raft.Scheduler.Metrics.{observe_queue_latency}
use job_raft.Scheduler.Workers.{worker_healthy}

unfoldable pub is_claimable : Status → Bool
is_claimable status = status_eq status pending || status_eq status retrying

unfoldable pub due_before : Task → Task → Bool
due_before a b =
    if not (eq_ℤ a.priority b.priority)
    then ltb_ℤ b.priority a.priority
    else if not (eq_ℕ a.run_at b.run_at)
    then ltb a.run_at b.run_at
    else str_ltb a.id b.id

-- Whether a candidate takes the place of the best one so far.
unfoldable pub beats : Task → Option (ℕ × Task) → Bool
beats t none = true
beats t (some (_, best)) = due_before t best

-- The scan of `bestDue` from index `i` on, with the best candidate so far.
unfoldable pub scan_due : ℕ → ℕ → List Task → List Bool → Option (ℕ × Task) → Option (ℕ × Task)
scan_due now i [] skip best = best
scan_due now i (t ∷ ts) [] best = best
scan_due now i (t ∷ ts) (skipped ∷ skip) best = scan_due now (suc i) ts skip (
    if skipped || not (is_claimable t.status) || ltb now t.run_at
    then best
    else if beats t best
    then some (i, t)
    else best)

-- `bestDue`: the index, and the task that stands there.
unfoldable pub best_due : List Task → ℕ → List Bool → Option (ℕ × Task)
best_due tasks now skip = scan_due now 0 tasks skip none

-- `skip[index] = true`
unfoldable pub mark : ℕ → List Bool → List Bool
mark i [] = []
mark zero (b ∷ bs) = true ∷ bs
mark (suc i) (b ∷ bs) = b ∷ mark i bs

abbrev pub none_skipped : List Task → List Bool
none_skipped [] = []
none_skipped (t ∷ ts) = false ∷ none_skipped ts

-- The record that a claim writes over `current`.
unfoldable pub claimed_task : {S : Type 0} → ℕ → String → String → Task → Scheduler S → Task
claimed_task now worker_id id current s = record current {
  status = running;
  attempts = inc_int current.attempts;
  started_at = some now;
  worker_id = worker_id;
  lease_until = some (add_time now s.lease_ttl);
  lease_token = lease_token_of now id;
}

-- What one candidate comes to: the claim ends, or goes on with the next candidate.
pub data Attempt (S : Type 0) : Type 0 where
  done : Result Task → Scheduler S → Attempt S
  next : Scheduler S → Attempt S

-- The commit of a reserved candidate, and the end of the round.
unfoldable pub settle : {S : Type 0} → ℕ → String → Result Task × Scheduler S → Attempt S
settle now id (ok t, s) = done (ok t) (observe_queue_latency now t s)
settle now id (err claim_lost, s) = next (unreserve id s)
settle now id (err e, s) = done (err e) (unreserve id s)

-- The claim at a store with an atomic claim of its own.
unfoldable pub claimed_atomically :
    {S : Type 0} → ℕ → Result Task × S → Scheduler S → Result Task × Scheduler S
claimed_atomically now (ok t, st) s = (ok t, observe_queue_latency now t (record s { store = st }))
claimed_atomically now (err no_task_available, st) s = (err no_task, record s { store = st })
claimed_atomically now (err e, st) s = (err e, record s { store = st })

module _ {S : Type 0} (api : Store S) where
  unfoldable pub commit_claim : ℕ → String → String → Scheduler S → Result Task × Scheduler S
  commit_claim now worker_id id s = elim (api.get id s.store) [
    | err e ↦ (err claim_lost, s)
    | ok current ↦
        if not (is_claimable current.status)
        then (err claim_lost, s)
        else if ltb now current.run_at
        then (err claim_lost, s)
        else (let t = claimed_task now worker_id id current s in
            let r = write_if_state api id current.status current.lease_token t s.store in
            elim r.0 [
              | some e ↦ (err claim_lost, record s { store = r.1 })
              | none ↦ (ok t, record s { store = r.1 })
            ])
  ]

  -- The body of the loop of `Claim`. It reads the clock once or twice.
  unfoldable pub try_candidate : ℕ → ℕ → String → Task → Scheduler S → Attempt S
  try_candidate now now' worker_id t s =
      let (ready, problem) = dependencies_ready api t.depends_on s.store in
      if not (problem == "")
      then next (record s { store = fail_unready_task api now t problem s.store })
      else if not ready
      then next s
      else if is_some (lookup t.id s.running)
      then next s
      else settle now' t.id (commit_claim now worker_id t.id (reserve t.id s))

  -- The loop of `Claim`: each round rules one index out, so there are at most `length items`
  -- rounds that find a candidate. `clock n` is the n-th reading from here on.
  unfoldable pub claim_loop :
      ℕ
      → (ℕ → ℕ)
      → ℕ
      → String
      → List Task
      → List Bool
      → Scheduler S
      → Option (Result Task × Scheduler S)
  claim_loop zero clock now worker_id items skip s = none
  claim_loop (suc fuel) clock now worker_id items skip s = elim (best_due items now skip) [
    | none ↦ some (err no_task, s)
    | some (index, t) ↦ elim (try_candidate (clock 0) (clock 1) worker_id t s) [
      | done r s' ↦ some (r, s')
      | next s' ↦ claim_loop fuel (λ n. clock (suc n)) now worker_id items (mark index skip) s'
    ]
  ]

  -- `Claim`. The readings of the clock: for the worker's lease, for the snapshot, and in the loop.
  -- `none` is the fuel running out.
  unfoldable pub claim : ℕ → ℕ → (ℕ → ℕ) → String → Scheduler S → Option (Result Task × Scheduler S)
  claim now_health now clock worker_id s =
      if gate_closed s.leader_gate
      then some (err not_leader, s)
      else if not (worker_healthy api now_health worker_id s)
      then some (err worker_unhealthy, s)
      else elim api.atomic_claimer [
        | some claimer ↦
            some
              (claimed_atomically (clock 0) (claimer.claim_due now worker_id s.lease_ttl s.store) s)
        | none ↦ elim (api.list s.store) [
          | err e ↦ some (err e, s)
          | ok items ↦
              claim_loop (suc (length items)) clock now worker_id items (none_skipped items) s
        ]
      ]
