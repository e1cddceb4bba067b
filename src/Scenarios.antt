-- ===== src/Scenarios.antt =====
-- Small runs of a scheduler over a memory store, at which the theorems are applied.

pub mod Runs
pub mod Files
pub mod Nodes
pub mod Leases
pub mod Requests
pub mod Groups
pub mod Clients
pub mod Programs
pub mod Json
pub mod Url
use job_raft.Scheduler.Claim.BestDue.{Claimable, candidate}
use job_raft.Scheduler.Execute.{end_run}
use job_raft.Store.Due.{due-All}
use job_raft.Scheduler.Claim.Total.{best_due_first, claim_total}
use job_raft.Store.Memory.Contract.{memory-IsLawful}
use job_raft.Task.Id.{id_from_inj, id_from}
use job_raft.Scheduler.Claim.Exclusive.{stale_holder_refused, claim_excludes, lease_token_of_inj}
use job_raft.Scheduler.Complete.{renew_task_lease, complete_task_with_result}
use job_raft.Scheduler.Calls.{ticks, cancels, claims, perform_all}
use job_raft.Scheduler.Calls.Frozen.{terminal_frozen, IsPlain}
use job_raft.Store.{due, is_due, Result, err, ok}
use job_raft.Scheduler.Claim.{due_before, best_due, claim, is_claimable, commit_claim, claimed_task}
use job_raft.Base.{
  false, int_span, ◌+◌, ◌%◌, ℕ, arith, some, true, All, decimal, decimal_ℤ, insert, ◌≡◌, refl, none,
  [], ◌∷◌, lookup, pos,
}
use job_raft.Scheduler.{unix_nano, lease_token_of, write_if_state, new, Scheduler}
use job_raft.Task.{invalid_lease, claim_lost, is_terminal, canceled, validate, Task, pending}
use job_raft.Store.Memory
use job_raft.Store.Memory.{MemoryStore, memory}

abbrev pub sample : Task
sample = record {
  id = "a";
  idempotency_key = "";
  name = "mail";
  priority = pos 0;
  depends_on = [];
  payload = [];
  result = [];
  status = pending;
  attempts = pos 0;
  retry = record { max_attempts = pos 2; backoff = pos 5 };
  run_at = 3;
  schedule = pos 0;
  run_count = pos 0;
  timeout = pos 0;
  last_error = "";
  created_at = 3;
  started_at = none;
  finished_at = none;
  worker_id = "";
  lease_until = none;
  lease_token = "";
}

-- A scheduler over a memory store with one task.
abbrev pub with_task : Task → Scheduler MemoryStore
with_task t = new (record { tasks = ("a", t) ∷ []; workers = [] }) (pos 1)

abbrev pub at_work : Task
at_work = claimed_task 10 "w" "a" sample (with_task sample)

abbrev pub at_work_state : Scheduler MemoryStore
at_work_state = record (with_task sample) {
  store = record { tasks = ("a", at_work) ∷ []; workers = [] };
}

claimed_once : commit_claim memory 10 "w" "a" (with_task sample) ≡ (ok at_work, at_work_state)
unfolding commit_claim claimed_task is_claimable write_if_state validate Memory.update_if_state
    Memory.get lookup insert new lease_token_of unix_nano decimal_ℤ decimal
claimed_once = refl

pub memory-IsPlain : IsPlain memory
memory-IsPlain = record { lawful = memory-IsLawful; no_claimer = refl; no_scanner = refl }

-- A task that was canceled after its second attempt.
abbrev stopped_task : Task
stopped_task = record sample { status = canceled; attempts = pos 2 }

stopped_get : memory.get "a" (with_task stopped_task).store ≡ ok stopped_task
unfolding Memory.get lookup new
stopped_get = refl

stopped_final : is_terminal stopped_task ≡ true
unfolding is_terminal
stopped_final = refl

terminal_frozen_example :
    memory.get "a"
      (perform_all memory
        (claims 4 4 (λ n. 5) "w" ∷ cancels 6 "a" ∷ ticks 7 7 7 (λ n. 8) ∷ [])
        (with_task stopped_task)).store
    ≡ ok stopped_task
terminal_frozen_example =
    terminal_frozen memory memory-IsPlain
      (claims 4 4 (λ n. 5) "w" ∷ cancels 6 "a" ∷ ticks 7 7 7 (λ n. 8) ∷ []) (with_task stopped_task)
      "a" stopped_task stopped_get stopped_final

claim_excludes_example :
    commit_claim memory 50 "v" "a" at_work_state ≡ (err claim_lost, at_work_state)
claim_excludes_example =
    claim_excludes memory memory-IsLawful 10 50 "w" "v" "a" (with_task sample) at_work_state at_work
      claimed_once

-- The record of a run under an earlier claim.
abbrev old_run : Task
old_run = record at_work { lease_token = lease_token_of 7 "a" }

stale_holder_refused_example :
    (complete_task_with_result memory 12 13 "v" "a" (lease_token_of 7 "a") "late" [] at_work_state
      ≡ (some invalid_lease, at_work_state))
    × (renew_task_lease memory 12 13 "v" "a" (lease_token_of 7 "a") at_work_state
        ≡ (err invalid_lease, at_work_state))
    × ((end_run memory 12 old_run 0 none at_work_state).store ≡ at_work_state.store)
unfolding claimed_task
stale_holder_refused_example =
    stale_holder_refused memory memory-IsLawful 7 10 12 13 "w" "v" "a" "late" [] (with_task sample)
      at_work_state at_work old_run 0 none (λ e. omega (arith, e)) claimed_once refl refl

claim_total_example :
    (r : Result Task × Scheduler MemoryStore) × (claim memory 4 4 (λ n. 5) "w" (with_task sample)
      ≡ some r)
claim_total_example = claim_total memory 4 4 (λ n. 5) "w" (with_task sample)

abbrev claim_time : ℕ
claim_time = 10

-- The time at which the clock in a token comes round again.
abbrev much_later : ℕ
much_later = 10 + int_span

lease_token_of_inj_example :
    (claim_time % int_span ≡ much_later % int_span) × (sample.id ≡ sample.id)
unfolding lease_token_of unix_nano
lease_token_of_inj_example = lease_token_of_inj claim_time much_later sample.id sample.id refl

id_from_inj_example : (pos 7 ≡ pos 7) × (1000001 % 1000000 ≡ 1 % 1000000)
unfolding id_from
id_from_inj_example = id_from_inj "00ff" (pos 7) (pos 7) 1000001 1 refl

due-All_example : All (λ t. is_due 10 t ≡ true) (due (sample ∷ at_work ∷ []) 10)
due-All_example = due-All 10 (sample ∷ at_work ∷ [])

abbrev pub urgent : Task
urgent = record sample { id = "b"; priority = pos 3 }

urgent_second : candidate 1 (sample ∷ urgent ∷ []) (false ∷ false ∷ []) ≡ some urgent
unfolding candidate
urgent_second = refl

urgent-Claimable : Claimable 10 urgent
unfolding is_claimable
urgent-Claimable = (refl, omega arith)

best_due_first_example :
    (i : ℕ) × (t : Task) × (best_due (sample ∷ urgent ∷ []) 10 (false ∷ false ∷ []) ≡ some (i, t))
    × (candidate i (sample ∷ urgent ∷ []) (false ∷ false ∷ []) ≡ some t)
    × Claimable 10 t
    × (due_before urgent t ≡ false)
best_due_first_example =
    best_due_first 10 (sample ∷ urgent ∷ []) (false ∷ false ∷ []) 1 urgent urgent_second
      urgent-Claimable
