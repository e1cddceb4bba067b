-- ===== src/Scheduler/Complete/Retries.antt =====
-- internal/scheduler/scheduler.go: the retry budget, over the claims and the failed ends of a task's
-- runs.
use job_raft.Task.{failed, retrying, is_terminal, Task}
use job_raft.Base.{
  max_int, ℕ, zero, suc, ◌≡◌, refl, ◌≤◌, ◌<◌, String, not, some, arith, ltb, if◌then◌else◌, pos,
}
use job_raft.Scheduler.{Scheduler}
use job_raft.Scheduler.Claim.{claimed_task}
use job_raft.Scheduler.Complete.{released, finished}

module _ {S : Type 0} (s : Scheduler S) (starts ends : ℕ → ℕ) (workers messages : ℕ → String) where
  -- The record after `n` runs that each ended with an error; the n-th has its own times, worker and
  -- error.
  abbrev pub failed_runs : ℕ → Task → Task
  failed_runs zero t = t
  failed_runs (suc n) t =
      let u = failed_runs n t in
      (finished (ends n) (claimed_task (starts n) (workers n) u.id u s) (some (messages n))).0

  failed_run_lem :
      (n : ℕ) (u t : Task) (start end' : ℕ) (worker message : String) (m : ℕ)
      → u.attempts ≡ pos n
      → u.retry ≡ t.retry
      → t.retry.max_attempts ≡ pos m
      → m ≤ max_int
      → n < m
      → ((finished end' (claimed_task start worker u.id u s) (some message)).0.attempts
          ≡ pos (suc n))
        × ((finished end' (claimed_task start worker u.id u s) (some message)).0.retry ≡ t.retry)
        × ((finished end' (claimed_task start worker u.id u s) (some message)).0.status
            ≡ (if ltb (suc n) m then retrying else failed))
  unfolding finished claimed_task released
  failed_run_lem n u t start end' worker message m a r h small more =
      (ground arith, ground arith, ground arith)

  failed_runs-retry :
      (n : ℕ) (t : Task) (m : ℕ)
      → t.attempts ≡ pos 0
      → t.retry.max_attempts ≡ pos m
      → m ≤ max_int
      → n ≤ m
      → ((failed_runs n t).attempts ≡ pos n) × ((failed_runs n t).retry ≡ t.retry)
  failed_runs-retry zero t m start h small more = (start, refl)
  failed_runs-retry (suc n) t m start h small more =
      let (a, r) = failed_runs-retry n t m start h small (omega arith) in
      let (b, q, _) =
        failed_run_lem n (failed_runs n t) t (starts n) (ends n) (workers n) (messages n) m a r h
          small (omega arith) in
      (b, q)

  -- A task that starts with no attempts and may have `m` of them, each of which fails, has `n`
  -- attempts after its n-th run, for n from 1 to m; it is retrying after each run but the
  -- m-th, and failed and terminal after that one. `m` is at most the largest int.
  pub retry_budget :
      (n : ℕ) (t : Task) (m : ℕ)
      → t.attempts ≡ pos 0
      → t.retry.max_attempts ≡ pos m
      → m ≤ max_int
      → 1 ≤ n
      → n ≤ m
      → ((failed_runs n t).attempts ≡ pos n)
        × ((failed_runs n t).status ≡ (if ltb n m then retrying else failed))
        × (is_terminal (failed_runs n t) ≡ not (ltb n m))
  unfolding is_terminal
  retry_budget zero t m start h small one more = absurd (omega arith)
  retry_budget (suc n) t m start h small one more =
      let (a, r) = failed_runs-retry n t m start h small (omega arith) in
      let (b, q, status) =
        failed_run_lem n (failed_runs n t) t (starts n) (ends n) (workers n) (messages n) m a r h
          small (omega arith) in
      (b, status, ground arith)
