-- ===== src/Scheduler/Metrics.antt =====
-- internal/scheduler/scheduler.go: the counters and the queue latency histogram. A latency is a
-- number of nanoseconds, where the source has a float64 of seconds; so are the bounds and the sum.
pub mod Histogram
use job_raft.Base.{ℕ, ◌+◌, ◌-◌, ◌*◌, List, [], ◌∷◌, leb, if◌then◌else◌}
use job_raft.Task.{Task}
use job_raft.Scheduler.{Scheduler, second, add_one}

pub record Metrics : Type 0 where
  pub submitted : ℕ
  pub succeeded : ℕ
  pub failed : ℕ
  pub retried : ℕ
  pub canceled : ℕ
  pub lease_expired : ℕ

-- 0.1, 1, 5, 10, 15, 30 and 60 seconds.
abbrev pub queue_latency_bounds : List ℕ
queue_latency_bounds =
    100000000
    ∷ second
    ∷ (5 * second)
    ∷ (10 * second)
    ∷ (15 * second)
    ∷ (30 * second)
    ∷ (60 * second)
    ∷ []

-- The loop over the bounds; the bucket after the last bound counts every observation.
unfoldable pub count_bounds : ℕ → List ℕ → List ℕ → List ℕ
count_bounds latency bounds [] = []
count_bounds latency [] (bucket ∷ buckets) = add_one bucket ∷ buckets
count_bounds latency (bound ∷ bounds) (bucket ∷ buckets) =
    (if leb latency bound then add_one bucket else bucket) ∷ count_bounds latency bounds buckets

module _ {S : Type 0} where
  -- A scheduled time in the future counts as no latency, as truncated subtraction has it.
  unfoldable pub observe_queue_latency : ℕ → Task → Scheduler S → Scheduler S
  observe_queue_latency now t s =
      let latency = now - t.run_at in
      record s {
        queue_latency_buckets = count_bounds latency queue_latency_bounds s.queue_latency_buckets;
        queue_latency_sum = s.queue_latency_sum + latency;
        queue_latency_count = add_one s.queue_latency_count;
      }

  unfoldable pub metrics : Scheduler S → Metrics
  metrics s = record {
    submitted = s.submitted;
    succeeded = s.succeeded;
    failed = s.failed;
    retried = s.retried;
    canceled = s.canceled;
    lease_expired = s.lease_expired;
  }

  unfoldable pub queue_latency_histogram : Scheduler S → List ℕ × ℕ × ℕ
  queue_latency_histogram s = (s.queue_latency_buckets, s.queue_latency_sum, s.queue_latency_count)
