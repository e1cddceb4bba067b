-- ===== src/Scheduler/Dispatch/Start.antt =====
-- internal/scheduler/scheduler.go: what the dispatch of a due task comes to, and its rollback.
use job_raft.Scheduler.Metrics.{observe_queue_latency}
use job_raft.Scheduler.Dispatch.{enqueue, start_task, rolled_back, dispatched_task}
use job_raft.Task.{running, pending, Task, validate}
use job_raft.Store.{ok, Store}
use job_raft.Base.{
  lookup-erase, max_int, ℕ, ◌*◌, ◌≡◌, refl, ap, ◌∙◌, ◌<◌, ◌⊎◌, inl, inr, String, Bool, true, false,
  none, [], ◌∷◌, ◌++◌, arith, eq_refl, ltb, if◌then◌else◌, Bool-cases, lookup, length, pos,
}
use job_raft.Scheduler.{unreserve, write_if_state, Scheduler}
use job_raft.Store.Contract.{IsLawful}
use job_raft.Scheduler.Moves.{write_if_state-ComparesAndSets, write_if_state_hit}

-- The length of the queue at which a send no longer goes through.
abbrev pub has_room : {S : Type 0} → Scheduler S → Bool
has_room s = ltb (length s.queue) (s.workers * 2)

module _ {S : Type 0} where
  dispatched-validate :
      (now now_pick n : ℕ) (t : Task) (s : Scheduler S)
      → validate t ≡ none
      → t.attempts ≡ pos n
      → n < max_int
      → validate (dispatched_task now now_pick t s) ≡ none
  unfolding validate dispatched_task
  dispatched-validate now now_pick n t s fine a h = ground arith

  rolled_back-attempts :
      (now now_pick n : ℕ) (t : Task) (s : Scheduler S)
      → t.attempts ≡ pos n
      → n < max_int
      → (rolled_back (dispatched_task now now_pick t s)).attempts ≡ t.attempts
  unfolding dispatched_task rolled_back
  rolled_back-attempts now now_pick n t s a h = ground arith

  rolled_back-validate :
      (now now_pick n : ℕ) (t : Task) (s : Scheduler S)
      → validate t ≡ none
      → t.attempts ≡ pos n
      → n < max_int
      → validate (rolled_back (dispatched_task now now_pick t s)) ≡ none
  unfolding validate dispatched_task rolled_back
  rolled_back-validate now now_pick n t s fine a h = ground arith

module _ {S : Type 0} (api : Store S) (law : IsLawful api) where
  pub write-get :
      (id : String) (current t : Task) (st : S)
      → api.get id st ≡ ok current
      → validate t ≡ none
      → api.get id (write_if_state api id current.status current.lease_token t st).1 ≡ ok t
  write-get id current t st found fine =
      elim (write_if_state-ComparesAndSets api law id current.status current.lease_token t st) [
        | inl (e, p, _) ↦ cc (write_if_state_hit api law id t current st fine found, p)
        | inr (_, _, _, _, _, _, new) ↦ ground (arith, new id, eq_refl id)
      ]

  enqueue_full :
      (t : Task) (s : Scheduler S)
      → has_room s ≡ false
      → enqueue api t s
        ≡ unreserve t.id (record s {
          store = (write_if_state api t.id running t.lease_token (rolled_back t) s.store).1;
        })
  unfolding enqueue
  enqueue_full t s full = ground arith

  start_task_written :
      (now now_pick now_seen : ℕ) (t : Task) (s : Scheduler S)
      → (write_if_state api t.id t.status t.lease_token
          (dispatched_task now now_pick t s)
          s.store).0
        ≡ none
      → start_task api now now_pick now_seen t s
        ≡ enqueue api (dispatched_task now now_pick t s) (
            observe_queue_latency now_seen (dispatched_task now now_pick t s) (record s {
              store =
                  (write_if_state api t.id t.status t.lease_token
                    (dispatched_task now now_pick t s)
                    s.store).1;
            }))
  unfolding start_task
  start_task_written now now_pick now_seen t s wrote = ground arith

  -- The start of a stored, valid task that the tick listed as it stands, and whose attempts
  -- are below the largest int. Where the queue has room the store has the running record and
  -- the queue has it at its end. Where it has none, the record is pending again with the
  -- attempts that it had before, the queue is as it was, and the task is no longer reserved.
  -- The store keeps the contract of Store/Contract.
  pub start_task_cases :
      (now now_pick now_seen n : ℕ) (t : Task) (s : Scheduler S)
      → api.get t.id s.store ≡ ok t
      → validate t ≡ none
      → t.attempts ≡ pos n
      → n < max_int
      → ((has_room s ≡ true)
          × (api.get t.id (start_task api now now_pick now_seen t s).store
              ≡ ok (dispatched_task now now_pick t s))
          × ((start_task api now now_pick now_seen t s).queue
              ≡ s.queue ++ dispatched_task now now_pick t s ∷ []))
        ⊎ ((has_room s ≡ false)
            × (u : Task) × (api.get t.id (start_task api now now_pick now_seen t s).store ≡ ok u)
            × (u.status ≡ pending)
            × (u.attempts ≡ t.attempts)
            × ((start_task api now now_pick now_seen t s).queue ≡ s.queue)
            × (lookup t.id (start_task api now now_pick now_seen t s).running ≡ none))
  unfolding start_task enqueue observe_queue_latency dispatched_task rolled_back
  start_task_cases now now_pick now_seen n t s found fine a h =
      let t' = dispatched_task now now_pick t s in
      let wrote =
        write_if_state_hit api law t.id t' t s.store
          (dispatched-validate now now_pick n t s fine a h) found in
      let held =
        write-get t.id t t' s.store found (dispatched-validate now now_pick n t s fine a h) in
      elim (Bool-cases (has_room s)) [
        | inl room ↦ inl (room, ground arith, ground arith)
        | inr full ↦
            let st = (write_if_state api t.id t.status t.lease_token t' s.store).1 in
            let back =
              write-get t.id t' (rolled_back t') st held
                (rolled_back-validate now now_pick n t s fine a h) in
            let seen = observe_queue_latency now_seen t' (record s { store = st }) in
            let ended =
              start_task_written now now_pick now_seen t s wrote ∙ enqueue_full t' seen full in
            inr (
              full,
              rolled_back t',
              ap (λ (x : Scheduler S). api.get t.id x.store) ended ∙ back,
              refl,
              rolled_back-attempts now now_pick n t s a h,
              ap (λ (x : Scheduler S). x.queue) ended,
              ap (λ (x : Scheduler S). lookup t.id x.running) ended
                  ∙ lookup-erase t.id t.id s.running
                  ∙ ap (λ (b : Bool). if b then none else lookup t.id s.running) (eq_refl t.id),
            )
      ]
