-- ===== src/Scheduler.antt =====
-- internal/scheduler/scheduler.go: the scheduler's state and what its methods share. A method that
-- writes returns the new state, which holds the store; the mutex makes no other difference, since
-- a method is a sequence of steps on this one value. What other goroutines do between two steps is
-- covered by lemmas that range over every state of the store at the time of a write.
pub mod Metrics
pub mod Workers
pub mod Submit
pub mod Claim
pub mod Complete
pub mod Cancel
pub mod Recover
pub mod Dispatch
pub mod Execute
pub mod Lifecycle
pub mod Moves
pub mod Calls
use Prim.Native.String.{◌++◌}
use job_raft.Base.{
  ℕ, zero, suc, ◌+◌, ◌-◌, ◌*◌, ◌%◌, ◌^◌, String, Bool, true, false, ◌&&◌, ◌||◌, not, Option, none,
  some, List, [], ◌∷◌, ℤ, pos, ltb, ltb_ℤ, if◌then◌else◌, ◌==◌, Assoc, lookup, insert, erase,
  as_int, int_span, ◌%◌, decimal_ℤ, pos_part,
}
use job_raft.Task.{
  Status, pending, retrying, failed, success, canceled, status_eq, Task, Err, handler_required,
}
use job_raft.Store.{Result, ok, err, Worker, Store, Write}

-- A handler is a function of the task that gives the text of its error, if any. What cancels its
-- context is an argument of `execute`.
abbrev pub Handler : Type 0
Handler = Task → Option String

-- A second in nanoseconds.
abbrev pub second : ℕ
second = 1000000000

-- `running` maps a task to its cancel function: nil, or the number of the context that it cancels.
-- The contexts that were canceled are listed in `canceled_contexts`. `leader_gate` is the gate's
-- present answer to IsLeader, if there is a gate; `started` says that `cancel` is not nil.
pub record Scheduler (S : Type 0) : Type 0 where
  pub store : S
  pub workers : ℕ
  pub handlers : Assoc Handler
  pub queue : List Task
  pub running : Assoc (Option ℕ)
  pub next_context : ℕ
  pub canceled_contexts : List ℕ
  pub workers_by_id : Assoc Worker
  pub lease_ttl : ℤ
  pub max_pending : ℤ
  pub leader_gate : Option Bool
  pub started : Bool
  pub stopped : Bool
  pub submitted : ℕ
  pub succeeded : ℕ
  pub failed : ℕ
  pub retried : ℕ
  pub canceled : ℕ
  pub lease_expired : ℕ
  pub queue_latency_buckets : List ℕ
  pub queue_latency_sum : ℕ
  pub queue_latency_count : ℕ

-- `atomic.AddUint64(&n, 1)`.
abbrev pub add_one : ℕ → ℕ
add_one n = (n + 1) % 2 ^ 64

-- `New`: fewer than one worker is one worker. The lease of 30 s is in nanoseconds. The products do not
-- wrap: the queue of two tasks for each worker is allocated before, and `make` panics where it does
-- not fit the memory, long before a hundred times the number of workers passes the largest int.
unfoldable pub new : {S : Type 0} → S → ℤ → Scheduler S
new st requested =
    let count : ℕ = if ltb_ℤ requested (pos 1) then 1 else pos_part requested in
    record {
      store = st;
      workers = count;
      handlers = [];
      queue = [];
      running = [];
      next_context = 0;
      canceled_contexts = [];
      workers_by_id = [];
      lease_ttl = pos 30000000000;
      max_pending = pos (count * 100);
      leader_gate = none;
      started = false;
      stopped = false;
      submitted = 0;
      succeeded = 0;
      failed = 0;
      retried = 0;
      canceled = 0;
      lease_expired = 0;
      queue_latency_buckets = 0 ∷ 0 ∷ 0 ∷ 0 ∷ 0 ∷ 0 ∷ 0 ∷ 0 ∷ [];
      queue_latency_sum = 0;
      queue_latency_count = 0;
    }

-- `s.leaderGate != nil && !s.leaderGate.IsLeader()`
abbrev pub gate_closed : Option Bool → Bool
gate_closed none = false
gate_closed (some leads) = not leads

module _ {S : Type 0} where
  unfoldable pub set_max_pending : ℤ → Scheduler S → Scheduler S
  set_max_pending limit s = if ltb_ℤ (pos 0) limit then record s { max_pending = limit } else s

  unfoldable pub set_lease_ttl : ℤ → Scheduler S → Scheduler S
  set_lease_ttl ttl s = if ltb_ℤ (pos 0) ttl then record s { lease_ttl = ttl } else s

  unfoldable pub set_leader_gate : Bool → Scheduler S → Scheduler S
  set_leader_gate answer s = record s { leader_gate = some answer }

  -- `Register`; a nil function is `none`.
  unfoldable pub register : String → Option Handler → Scheduler S → Option Err × Scheduler S
  register name none s = (some handler_required, s)
  register name (some h) s =
      if name == ""
      then (some handler_required, s)
      else (none, record s { handlers = insert name h s.handlers })

  -- The effect of a call of the store, with what the call returns.
  abbrev pub stored {ℓ} : {A : Type ℓ} → Scheduler S → A × S → A × Scheduler S
  stored s r = (r.0, record s { store = r.1 })

  -- `s.running[id] = nil`
  abbrev pub reserve : String → Scheduler S → Scheduler S
  reserve id s = record s { running = insert id none s.running }

  -- `delete(s.running, id)`
  abbrev pub unreserve : String → Scheduler S → Scheduler S
  unreserve id s = record s { running = erase id s.running }

  -- Calls the cancel function of a running task, if there is one that is not nil.
  unfoldable pub cancel_running : String → Scheduler S → Scheduler S
  cancel_running id s = elim (lookup id s.running) [
    | some (some context) ↦ record s { canceled_contexts = context ∷ s.canceled_contexts }
    | _ ↦ s
  ]

  module _ (api : Store S) where
    -- The write of the methods that change a task: conditional where the store can do it.
    unfoldable pub write_if_state : String → Status → String → Task → Write S
    write_if_state id status token t st = elim api.conditional_updater [
      | some updater ↦ updater.update_if_state id status token t st
      | none ↦ api.update t st
    ]

    unfoldable pub get : String → Scheduler S → Result Task
    get id s = api.get id s.store

    unfoldable pub list : Scheduler S → Result (List Task)
    list s = api.list s.store

    -- `dependenciesReady`, from the dependencies that are left; "" is no error.
    unfoldable pub dependencies_ready : List String → S → Bool × String
    dependencies_ready [] st = (true, "")
    dependencies_ready (id ∷ rest) st =
        let later : Bool × String = dependencies_ready rest st in
        elim (api.get id st) [
          | err _ ↦ (false, "dependency " ++ (id ++ " not found"))
          | ok dep ↦
              if status_eq dep.status failed || status_eq dep.status canceled
              then (false, "dependency " ++ (id ++ " did not succeed"))
              else if not (status_eq dep.status success)
              then (false, "")
              else later
        ]

    -- `failUnreadyTask`; the error of the write is dropped.
    unfoldable pub fail_unready_task : ℕ → Task → String → S → S
    fail_unready_task now t reason st =
        (write_if_state t.id t.status t.lease_token
          (record t { status = failed; last_error = reason; finished_at = some now }) st).1

-- `fmt.Sprintf("%d-%s", now.UnixNano(), id)`. The Unix epoch lies 62135596800 s after time zero,
-- less than 4 * 2^64 ns, and the number wraps as `int64` does.
unfoldable pub unix_nano : ℕ → ℤ
unix_nano t = as_int ((t + (4 * int_span - 62135596800 * second)) % int_span)

unfoldable pub lease_token_of : ℕ → String → String
lease_token_of now id = decimal_ℤ (unix_nano now) (String.◌∷◌ "-" id)
