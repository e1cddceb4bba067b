-- ===== src/Scheduler/Submit.antt =====
-- internal/scheduler/scheduler.go: submission, with idempotency keys, backpressure and the check of
-- the dependencies.
pub mod Conditions
pub mod Accepted
pub mod Capacity
pub mod Acyclic
pub mod Explored
use job_raft.Base.{
  ℕ, zero, suc, String, Bool, true, false, ◌||◌, Option, none, some, List, [], ◌∷◌, ℤ, pos, eq_ℕ,
  ltb_ℤ, if◌then◌else◌, ◌==◌, count_if,
}
use job_raft.Task.{
  unset, pending, status_eq, Task, Err, not_found, duplicate_task, backpressure, self_dependency,
  dependency_not_found, dependency_cycle,
}
use job_raft.Store.{Result, ok, err, Store, is_in_flight}
use job_raft.Scheduler.{Scheduler, add_one}

-- The first listed task with the key.
unfoldable pub find_listed : String → List Task → Result Task
find_listed key [] = err not_found
find_listed key (t ∷ ts) = if t.idempotency_key == key then ok t else find_listed key ts

abbrev pub contains : List String → String → Bool
contains [] id = false
contains (x ∷ xs) id = x == id || contains xs id

-- The loop of `dependsOn` over a task's dependencies, from the recursive call. `seen` is shared.
unfoldable pub any_depends :
    (String → List String → Bool × List String) → List String → List String → Bool × List String
any_depends visit [] seen = (false, seen)
any_depends visit (dep ∷ deps) seen =
    let (found, seen') = visit dep seen in
    let rest = any_depends visit deps seen' in if found then (true, seen') else rest

-- The defaults that `Submit` fills in. The clock is read once for each time that is missing.
unfoldable pub with_defaults : String → ℕ → ℕ → Task → Task
with_defaults new_id now_run now_created t = record t {
  id = if t.id == "" then new_id else t.id;
  run_at = if eq_ℕ t.run_at 0 then now_run else t.run_at;
  created_at = if eq_ℕ t.created_at 0 then now_created else t.created_at;
  status = if status_eq t.status unset then pending else t.status;
  retry = record {
    max_attempts = if ltb_ℤ t.retry.max_attempts (pos 1) then pos 1 else t.retry.max_attempts;
    backoff = t.retry.backoff;
  };
}

module _ {S : Type 0} (api : Store S) where
  unfoldable pub find_by_idempotency_key : String → S → Result Task
  find_by_idempotency_key key st = if key == "" then err not_found else elim api.key_finder [
    | some finder ↦ finder.get_by_idempotency_key key st
    | none ↦ elim (api.list st) [ err e ↦ err e | ok items ↦ find_listed key items ]
  ]

  unfoldable pub in_flight_count : S → Result ℕ
  in_flight_count st = elim api.in_flight_counter [
    | some counter ↦ counter.count_in_flight st
    | none ↦ elim (api.list st) [
      | err e ↦ err e
      | ok items ↦ ok (count_if (λ t. is_in_flight t.status) items)
    ]
  ]

  -- `dependsOn`, to a bounded depth: whether `target` is reached from `id`, and what was visited.
  unfoldable pub depends_on : ℕ → String → S → String → List String → Bool × List String
  depends_on zero target st id seen = (false, seen)
  depends_on (suc depth) target st id seen =
      if id == target
      then (true, seen)
      else if contains seen id
      then (false, seen)
      else elim (api.get id st) [
        | err e ↦ (false, id ∷ seen)
        | ok t ↦ any_depends (depends_on depth target st) t.depends_on (id ∷ seen)
      ]

  -- The loop of `Submit` over the dependencies of the task `id`: the first problem.
  unfoldable pub dependency_error : ℕ → String → S → List String → Option Err
  dependency_error depth id st [] = none
  dependency_error depth id st (dep ∷ deps) =
      let rest = dependency_error depth id st deps in
      if dep == id then some self_dependency else elim (api.get dep st) [
        | err e ↦ some (dependency_not_found dep)
        | ok t ↦ if (depends_on depth id st dep []).0 then some (dependency_cycle dep) else rest
      ]

  -- The task that already has the key of `t`, if it has one.
  unfoldable pub duplicate : Task → S → Option Task
  duplicate t st =
      if t.idempotency_key == ""
      then none
      else elim (find_by_idempotency_key t.idempotency_key st) [ ok u ↦ some u | err e ↦ none ]

  -- Why the queue takes no more, if it does not; a limit of 0 or less is none.
  unfoldable pub queue_error : ℤ → S → Option Err
  queue_error limit st =
      if ltb_ℤ (pos 0) limit
      then elim (in_flight_count st) [
        | err e ↦ some e
        | ok n ↦ if ltb_ℤ (pos n) limit then none else some backpressure
      ]
      else none

  abbrev count_submitted : Option Err → Scheduler S → Scheduler S
  count_submitted none s = record s { submitted = add_one s.submitted }
  count_submitted (some e) s = s

  -- `Submit`, with the identifier that `NewID` would give and the two readings of the clock.
  unfoldable pub submit : ℕ → String → ℕ → ℕ → Task → Scheduler S → Option Err × Scheduler S
  submit depth new_id now_run now_created t s = elim (duplicate t s.store) [
    | some existing ↦ (some (duplicate_task existing.id), s)
    | none ↦ elim (queue_error s.max_pending s.store) [
      | some e ↦ (some e, s)
      | none ↦
          let t' = with_defaults new_id now_run now_created t in
          elim (dependency_error depth t'.id s.store t'.depends_on) [
            | some e ↦ (some e, s)
            | none ↦
                let (e, st) = api.create t' s.store in
                (e, count_submitted e (record s { store = st }))
          ]
    ]
  ]
