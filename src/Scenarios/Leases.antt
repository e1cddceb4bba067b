-- ===== src/Scenarios/Leases.antt =====
-- A lease that lapses, and the first observation of a histogram.
use job_raft.Scheduler.Metrics.{observe_queue_latency}
use job_raft.Scheduler.Metrics.Histogram.{observe_queue_latency-Cumulative, Cumulative}
use job_raft.Scheduler.Complete.{complete_task_with_result}
use job_raft.Store.{ok}
use job_raft.Scheduler.Claim.{claimed_task}
use job_raft.Task.{invalid_lease, validate}
use job_raft.Base.{◌^◌, ◌<◌, ◌+◌, ◌∷◌, ℕ, ◌≡◌, refl, true, none, some, [], arith, lookup}
use job_raft.Scenarios.{sample, with_task, at_work, at_work_state}
use job_raft.Scheduler.{new, add_one}
use job_raft.Store.Memory
use job_raft.Store.Memory.{MemoryStore, memory}
use job_raft.Store.Memory.Contract.{memory-IsLawful}
use job_raft.Scheduler.Recover.{put_back, lease_lapsed, reap_one}
use job_raft.Scheduler.Recover.Reaped.{reaped_holder_refused}

abbrev much_later : ℕ
much_later = 90000000000

work_found : memory.get at_work.id at_work_state.store ≡ ok at_work
unfolding Memory.get lookup new claimed_task
work_found = refl

work_valid : validate at_work ≡ none
unfolding validate claimed_task
work_valid = refl

work_lapsed : lease_lapsed much_later at_work ≡ true
unfolding lease_lapsed claimed_task new
work_lapsed = refl

reaped_holder_refused_example :
    (memory.get at_work.id (reap_one memory much_later at_work at_work_state).store
      ≡ ok (put_back much_later "worker lease expired" at_work))
    × ((reap_one memory much_later at_work at_work_state).lease_expired
        ≡ add_one at_work_state.lease_expired)
    × (complete_task_with_result memory 5 6 "w" at_work.id at_work.lease_token "" []
          (reap_one memory much_later at_work at_work_state)
        ≡ (some invalid_lease, reap_one memory much_later at_work at_work_state))
reaped_holder_refused_example =
    reaped_holder_refused memory memory-IsLawful much_later 5 6 "w" at_work.lease_token "" []
      at_work at_work_state work_found work_valid (λ e. omega (arith, e)) work_lapsed

-- A new scheduler has an empty histogram.
empty_buckets : (with_task sample).queue_latency_buckets ≡ 0 ∷ 0 ∷ 0 ∷ 0 ∷ 0 ∷ 0 ∷ 0 ∷ 0 ∷ []
unfolding new
empty_buckets = refl

small_count : (with_task sample).queue_latency_count + 1 < 2 ^ 64
unfolding new
small_count = omega arith

empty-Cumulative :
    Cumulative (with_task sample).queue_latency_count (with_task sample).queue_latency_buckets
unfolding new
empty-Cumulative = (
  omega arith,
  (omega arith, (omega arith, (omega arith, (omega arith, (omega arith, (omega arith, refl)))))),
)

observe_queue_latency-Cumulative_example :
    ((observe_queue_latency 8 sample (with_task sample)).queue_latency_count
      ≡ (with_task sample).queue_latency_count + 1)
    × Cumulative
        ((with_task sample).queue_latency_count + 1)
        (observe_queue_latency 8 sample (with_task sample)).queue_latency_buckets
observe_queue_latency-Cumulative_example =
    observe_queue_latency-Cumulative 8 0 0 0 0 0 0 0 0 sample (with_task sample) empty_buckets
      small_count empty-Cumulative
