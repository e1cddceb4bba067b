-- ===== src/Scheduler/Execute.antt =====
-- internal/scheduler/scheduler.go: a local worker takes a task off the queue and runs its handler.
use job_raft.Base.{
  ℕ, suc, String, ◌||◌, not, Option, none, some, [], ◌∷◌, if◌then◌else◌, ◌==◌, lookup, insert,
}
use job_raft.Task.{running, status_eq, Task}
use job_raft.Store.{ok, err, Store}
use job_raft.Scheduler.{Scheduler, unreserve}
use job_raft.Scheduler.Complete.{finish}

-- `if err == nil && ctx.Err() != nil { err = ctx.Err() }`
unfoldable pub or_context_error : Option String → Option String → Option String
or_context_error none context_err = context_err
or_context_error (some e) context_err = some e

module _ {S : Type 0} (api : Store S) where
  -- Whether the store still has the task running under the token of the queued record.
  unfoldable pub still_owned : Task → S → Option Task
  still_owned t st = elim (api.get t.id st) [
    | err e ↦ none
    | ok current ↦
        if not (status_eq current.status running) || not (current.lease_token == t.lease_token)
        then none
        else some current
  ]

  -- What `execute` does once the handler has returned: the context's own cancel function is called
  -- last.
  unfoldable pub end_run : ℕ → Task → ℕ → Option String → Scheduler S → Scheduler S
  end_run now t context run_err s =
      let s' : Scheduler S = elim (still_owned t s.store) [
        | none ↦ s
        | some current ↦ (finish api now current run_err s).1
      ] in
      record s' {
        running = (unreserve t.id s').running;
        canceled_contexts = context ∷ s'.canceled_contexts;
      }

  -- The registration of the run under a new context.
  unfoldable pub begin_run : Task → Scheduler S → Scheduler S
  begin_run t s = record s {
    running = insert t.id (some s.next_context) s.running;
    next_context = suc s.next_context;
  }

  -- `execute`. While the handler runs the others do `meanwhile`, and `context_err` is the context's
  -- error at its end. `none` is the call of a nil handler, which panics.
  unfoldable pub execute :
      (Scheduler S → Scheduler S) → ℕ → Option String → Task → Scheduler S → Option (Scheduler S)
  execute meanwhile now context_err t s = elim (still_owned t s.store) [
    | none ↦ some (unreserve t.id s)
    | some _ ↦ elim (lookup t.name s.handlers) [
      | none ↦ none
      | some h ↦ some (
          end_run now t s.next_context (or_context_error (h t) context_err)
            (meanwhile (begin_run t s)))
    ]
  ]

  -- A round of `worker`: the oldest task of the queue, if there is one.
  unfoldable pub work :
      (Scheduler S → Scheduler S) → ℕ → Option String → Scheduler S → Option (Scheduler S)
  work meanwhile now context_err s = elim s.queue [
    | [] ↦ some s
    | t ∷ rest ↦ execute meanwhile now context_err t (record s { queue = rest })
  ]
