-- ===== src/Scheduler/Calls.antt =====
-- internal/scheduler/scheduler.go: the events of a scheduler's life, each one atomic: the calls of
-- its clients, the ticks of its loop and the two ends of a local run. A sequence of them is an
-- interleaving of clients, loop and workers.
pub mod Frozen
pub mod Beats
pub mod Reached
use job_raft.Scheduler.Lifecycle.{stop}
use job_raft.Scheduler.Execute.{end_run, begin_run}
use job_raft.Scheduler.Dispatch.{dispatch}
use job_raft.Scheduler.Cancel.{cancel}
use job_raft.Scheduler.Complete.{renew_task_lease, complete_task_with_result}
use job_raft.Scheduler.Claim.{claim}
use job_raft.Scheduler.Workers.{heartbeat, register_worker}
use job_raft.Scheduler.Submit.{submit}
use job_raft.Base.{
  ℕ, zero, suc, ◌+◌, ◌-◌, ◌*◌, ◌≡◌, ◌≢◌, refl, sym, ap, ◌∙◌, ◌≤◌, ◌<◌, ◌⊎◌, inl, inr, String, Bool,
  true, false, not, ◌&&◌, ◌||◌, Option, none, some, List, [], ◌∷◌, ◌++◌, arith, eq_iff, eq_refl,
  ◌==◌, ltb, if◌then◌else◌, Bool-cases, Option-cases, lookup, is_some, length, ℤ, pos, negsuc,
}
use job_raft.Scheduler.{Result, Store, Task, Scheduler}

pub data Call : Type 0 where
  submits : ℕ → String → ℕ → ℕ → Task → Call
  registers : ℕ → String → Call
  beats : ℕ → String → Call
  claims : ℕ → ℕ → (ℕ → ℕ) → String → Call
  completes : ℕ → ℕ → String → String → String → String → List ℕ → Call
  renews : ℕ → ℕ → String → String → String → Call
  cancels : ℕ → String → Call
  ticks : ℕ → ℕ → ℕ → (ℕ → ℕ) → Call
  -- A local worker begins the run of a task that it took off the queue.
  begins : Task → Call
  -- It ends with the handler's error, or none; the number is the context's.
  ends : ℕ → Task → ℕ → Option String → Call
  stops : ℕ → Call

module _ {S : Type 0} (api : Store S) where
  -- A claim that is out of fuel would change nothing; `claim` never is.
  abbrev pub after_claim : Scheduler S → Option (Result Task × Scheduler S) → Scheduler S
  after_claim s none = s
  after_claim s (some (r, s')) = s'

  unfoldable pub perform : Call → Scheduler S → Scheduler S
  perform (submits depth new_id now_run now_created t) s =
      (submit api depth new_id now_run now_created t s).1
  perform (registers now id) s = (register_worker api now id s).1
  perform (beats now id) s = (heartbeat api now id s).1
  perform (claims now_health now clock worker) s =
      after_claim s (claim api now_health now clock worker s)
  perform (completes now now' worker id token failure result) s =
      (complete_task_with_result api now now' worker id token failure result s).1
  perform (renews now now' worker id token) s = (renew_task_lease api now now' worker id token s).1
  perform (cancels now id) s = (cancel api now id s).1
  perform (ticks now_expired now_reap now_due clock) s =
      dispatch api now_expired now_reap now_due clock s
  perform (begins t) s = begin_run api t s
  perform (ends now t context run_err) s = end_run api now t context run_err s
  perform (stops now) s = stop api now s

  unfoldable pub perform_all : List Call → Scheduler S → Scheduler S
  perform_all [] s = s
  perform_all (c ∷ cs) s = perform_all cs (perform c s)
