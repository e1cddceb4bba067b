-- ===== src/Scenarios/Runs.antt =====
-- Small runs of a scheduler over a memory store: the laws of its operations, applied.
use job_raft.Scheduler.Submit.Acyclic.{submit_acyclic, Leads}
use job_raft.Scheduler.Claim.Handout.{claim_hands_out, HandedOut}
use job_raft.Scheduler.Workers.{worker_healthy}
use job_raft.Scheduler.Metrics.{observe_queue_latency}
use job_raft.Scheduler.Submit.Conditions.{Refused, KeyFree, HasRoom, Acceptable}
use job_raft.Scheduler.Submit.Accepted.{submit_cases}
use job_raft.Scheduler.Cancel.Final.{purge_cases, canceled_for_good}
use job_raft.Scheduler.Complete.Cases.{complete_task_cases, completed}
use job_raft.Scheduler.Submit.Capacity.{resubmit_refused, submit_within_limit}
use job_raft.Scheduler.Dispatch.{dispatched_task, start_task}
use job_raft.Scheduler.Calls.{cancels, perform_all}
use job_raft.Scheduler.Complete.{count_outcome, valid_lease, complete_task_with_result}
use job_raft.Scheduler.Dispatch.Start.{start_task_cases, has_room}
use job_raft.Store.Due.Order.{due_lists, ByPriority, is_waiting}
use job_raft.Scheduler.Submit.{
  contains, any_depends, depends_on, dependency_error, find_by_idempotency_key, with_defaults,
  queue_error, duplicate, in_flight_count, submit,
}
use job_raft.Scheduler.Cancel.{canceled_task, purge, cancel}
use job_raft.Scheduler.Complete.Retries.{retry_budget, failed_runs}
use job_raft.Store.{is_in_flight, err, due, ok}
use job_raft.Scheduler.Claim.{
  scan_due, best_due, is_claimable, commit_claim, settle, try_candidate, claim_loop, claim,
  claimed_task,
}
use job_raft.Task.{
  not_found, pending, running, status_eq, failed, duplicate_task, retrying, success, Err, Task,
  is_terminal, validate,
}
use job_raft.Base.{
  List, eq_iff, inr, inl, Bool-cases, ap, insert, All, count_if, ℕ, ◌≡◌, refl, ◌≤◌, ◌⊎◌, String,
  true, false, not, ◌&&◌, none, some, [], ◌∷◌, ◌++◌, arith, ◌==◌, ltb, if◌then◌else◌, lookup, pos,
}
use job_raft.Scenarios.{sample, with_task, at_work, at_work_state, urgent, memory-IsPlain}
use job_raft.Scheduler.{
  write_if_state, dependencies_ready, gate_closed, add_one, unreserve, lease_token_of, new,
  Scheduler,
}
use job_raft.Store.Memory
use job_raft.Scheduler.Claim
use job_raft.Store.Memory.{MemoryStore, memory}
use job_raft.Store.Memory.Contract.{memory-IsLawful}
use job_raft.Store.Contract.{Replaced}

abbrev two : ℕ
two = 2

retry_budget_example :
    ((failed_runs (with_task sample) (λ n. n) (λ n. n) (λ n. "w") (λ n. "e") two sample).attempts
      ≡ pos two)
    × ((failed_runs (with_task sample) (λ n. n) (λ n. n) (λ n. "w") (λ n. "e") two sample).status
        ≡ (if ltb two two then retrying else failed))
    × (is_terminal
          (failed_runs (with_task sample) (λ n. n) (λ n. n) (λ n. "w") (λ n. "e") two sample)
        ≡ not (ltb two two))
retry_budget_example =
    retry_budget (with_task sample) (λ n. n) (λ n. n) (λ n. "w") (λ n. "e") two sample two refl refl
      (omega arith) (omega arith) (omega arith)

sample_found : memory.get "a" (with_task sample).store ≡ ok sample
unfolding Memory.get lookup new
sample_found = refl

work_found : memory.get "a" at_work_state.store ≡ ok at_work
unfolding Memory.get lookup new claimed_task
work_found = refl

sample_valid : validate sample ≡ none
unfolding validate
sample_valid = refl

sample_open : is_terminal sample ≡ false
unfolding is_terminal
sample_open = refl

complete_task_cases_example :
    ((e : Err) × (complete_task_with_result memory 12 13 "w" "a"
          (lease_token_of 10 "a")
          ""
          []
          at_work_state
        ≡ (some e, at_work_state)))
    ⊎ ((st : MemoryStore) × (valid_lease at_work "w" (lease_token_of 10 "a") 12 ≡ true)
        × Replaced memory "a" (completed 13 "" [] at_work).0 at_work_state.store st
        × (complete_task_with_result memory 12 13 "w" "a"
              (lease_token_of 10 "a")
              ""
              []
              at_work_state
            ≡ (
              none,
              unreserve "a" (
                  count_outcome
                    (completed 13 "" [] at_work).1
                    (record at_work_state { store = st })),
            )))
unfolding claimed_task
complete_task_cases_example =
    complete_task_cases memory memory-IsLawful 12 13 "w" "a" (lease_token_of 10 "a") "" []
      at_work_state at_work work_found refl

canceled_for_good_example :
    ((cancel memory 5 "a" (with_task sample)).0 ≡ none)
    × (memory.get "a"
          (perform_all memory (cancels 6 "a" ∷ []) (cancel memory 5 "a" (with_task sample)).1).store
        ≡ ok (canceled_task 5 sample))
canceled_for_good_example =
    canceled_for_good memory memory-IsPlain 5 "a" (cancels 6 "a" ∷ []) (with_task sample) sample
      sample_found sample_valid sample_open

purge_cases_example :
    ((e : Err) × (purge memory "a" (with_task sample) ≡ (some e, with_task sample)))
    ⊎ ((status_eq sample.status running ≡ false)
        × ((purge memory "a" (with_task sample)).0 ≡ none)
        × ((j : String)
            → memory.get j (purge memory "a" (with_task sample)).1.store
              ≡ (if "a" == j then err not_found else memory.get j (with_task sample).store)))
purge_cases_example = purge_cases memory memory-IsLawful "a" (with_task sample) sample sample_found

-- A second task, that carries a key and depends on the first.
abbrev keyed : Task
keyed = record urgent { idempotency_key = "k"; depends_on = "a" ∷ [] }

abbrev with_both : Scheduler MemoryStore
with_both = record (with_task sample) {
  store = record { tasks = ("a", sample) ∷ ("b", keyed) ∷ []; workers = [] };
  submitted = 1;
}

keyed_submitted : submit memory 3 "n" 4 4 keyed (with_task sample) ≡ (none, with_both)
unfolding submit duplicate queue_error in_flight_count find_by_idempotency_key with_defaults
    dependency_error depends_on any_depends Memory.create Memory.get Memory.get_by_idempotency_key
    Memory.count_in_flight Memory.find_key validate lookup insert new is_in_flight
keyed_submitted = refl

submit_cases_example :
    ((e : Err) × (submit memory 3 "n" 4 4 keyed (with_task sample) ≡ (some e, with_task sample))
      × Refused memory 3
          (with_task sample).max_pending
          (with_defaults "n" 4 4 keyed)
          (with_task sample).store
          e)
    ⊎ ((e : Err) × KeyFree memory keyed.idempotency_key (with_task sample).store
        × HasRoom memory (with_task sample).max_pending (with_task sample).store
        × (validate (with_defaults "n" 4 4 keyed) ≡ none)
        × (memory.get (with_defaults "n" 4 4 keyed).id (with_task sample).store ≡ err e)
        × All
            (Acceptable memory 3 (with_defaults "n" 4 4 keyed).id (with_task sample).store)
            keyed.depends_on
        × ((submit memory 3 "n" 4 4 keyed (with_task sample)).0 ≡ none)
        × Replaced memory
            (with_defaults "n" 4 4 keyed).id
            (with_defaults "n" 4 4 keyed)
            (with_task sample).store
            (submit memory 3 "n" 4 4 keyed (with_task sample)).1.store
        × ((submit memory 3 "n" 4 4 keyed (with_task sample)).1.submitted
            ≡ add_one (with_task sample).submitted))
submit_cases_example = submit_cases memory memory-IsLawful 3 "n" 4 4 keyed (with_task sample)

resubmit_refused_example :
    submit memory 3 "m" 9 9 keyed with_both
    ≡ (some (duplicate_task (with_defaults "n" 4 4 keyed).id), with_both)
resubmit_refused_example =
    resubmit_refused 3 3 "n" "m" 4 4 9 9 keyed keyed (with_task sample) with_both keyed_submitted
      refl refl

with_task-max_pending : (with_task sample).max_pending ≡ pos 100
unfolding new
with_task-max_pending = refl

submit_within_limit_example :
    (count : ℕ) × (in_flight_count memory with_both.store ≡ ok count) × (count ≤ 100)
submit_within_limit_example =
    submit_within_limit 3 "n" 4 4 100 keyed (with_task sample) with_both keyed_submitted
      with_task-max_pending (omega arith)

due_lists_example :
    ByPriority (due (sample ∷ urgent ∷ []) 10)
    × (count_if (λ t. true) (due (sample ∷ urgent ∷ []) 10)
        ≡ count_if (λ t. is_waiting 10 t && true) (sample ∷ urgent ∷ []))
due_lists_example = due_lists 10 (sample ∷ urgent ∷ []) (λ t. true)

start_task_cases_example :
    ((has_room (with_task sample) ≡ true)
      × (memory.get "a" (start_task memory 10 11 12 sample (with_task sample)).store
          ≡ ok (dispatched_task 10 11 sample (with_task sample)))
      × ((start_task memory 10 11 12 sample (with_task sample)).queue
          ≡ (with_task sample).queue ++ dispatched_task 10 11 sample (with_task sample) ∷ []))
    ⊎ ((has_room (with_task sample) ≡ false)
        × (u : Task) × (memory.get "a" (start_task memory 10 11 12 sample (with_task sample)).store
            ≡ ok u)
        × (u.status ≡ pending)
        × (u.attempts ≡ sample.attempts)
        × ((start_task memory 10 11 12 sample (with_task sample)).queue ≡ (with_task sample).queue)
        × (lookup "a" (start_task memory 10 11 12 sample (with_task sample)).running ≡ none))
start_task_cases_example =
    start_task_cases memory memory-IsLawful 10 11 12 0 sample (with_task sample) sample_found
      sample_valid refl (omega arith)

-- A task that succeeded, and one that depends on it.
abbrev finished_task : Task
finished_task = record sample { id = "d"; status = success }

abbrev dependent : Task
dependent = record sample { depends_on = "d" ∷ [] }

-- A scheduler with both, and with a worker whose lease is live.
abbrev staffed : Scheduler MemoryStore
staffed = record (with_task sample) {
  store = record {
    tasks = ("a", dependent) ∷ ("d", finished_task) ∷ [];
    workers = ("w", record { id = "w"; last_heartbeat = 3; lease_until = 99 }) ∷ [];
  };
}

abbrev staffed_task : Task
staffed_task = claimed_task 10 "w" "a" dependent staffed

abbrev staffed_after : Scheduler MemoryStore
staffed_after = observe_queue_latency 10 staffed_task (record staffed {
  store = record staffed.store { tasks = ("a", staffed_task) ∷ ("d", finished_task) ∷ [] };
  running = ("a", none) ∷ [];
})

staffed_claims : claim memory 10 10 (λ n. 10) "w" staffed ≡ some (ok staffed_task, staffed_after)
unfolding claim claim_loop try_candidate settle commit_claim claimed_task is_claimable best_due
    scan_due Claim.beats worker_healthy dependencies_ready observe_queue_latency write_if_state
    validate Memory.update_if_state Memory.get Memory.get_worker Memory.list lookup insert new
staffed_claims = refl

claim_hands_out_example :
    (gate_closed staffed.leader_gate ≡ false)
    × (worker_healthy memory 10 "w" staffed ≡ true)
    × (items : List Task) × (memory.list staffed.store ≡ ok items)
    × HandedOut memory 10 items "w" staffed_task staffed_after
claim_hands_out_example =
    claim_hands_out memory memory-IsLawful 10 10 (λ n. 10) "w" staffed staffed_after staffed_task
      refl staffed_claims

only_a :
    (j : String) (u : Task)
    → memory.get j (with_task sample).store ≡ ok u
    → contains ("a" ∷ []) j ≡ true
unfolding Memory.get lookup new
only_a j u h = elim (Bool-cases ("a" == j)) [
  | inl hit ↦ ground (arith, hit)
  | inr other ↦ absurd (ground (arith, h, other, eq_iff j "a", eq_iff "a" j))
]

submit_acyclic_example :
    ¬ Leads memory (with_task sample).store "a" (with_defaults "n" 4 4 keyed).id
submit_acyclic_example =
    submit_acyclic memory memory-IsLawful ("a" ∷ []) 2 "n" 4 4 keyed (with_task sample) "a" only_a
      (omega arith) (ap (λ r. r.0) keyed_submitted) refl
