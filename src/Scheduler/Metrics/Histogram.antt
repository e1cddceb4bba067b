-- ===== src/Scheduler/Metrics/Histogram.antt =====
-- internal/scheduler/scheduler.go: the histogram of queue latencies is cumulative.
use job_raft.Task.{Task}
use job_raft.Base.{◌^◌, ℕ, ◌+◌, ◌-◌, ◌≡◌, ◌≤◌, ◌<◌, List, [], ◌∷◌, arith}
use job_raft.Scheduler.{Scheduler}
use job_raft.Scheduler.Metrics.{count_bounds, queue_latency_bounds, observe_queue_latency}

-- No bucket holds more than the next one, and the last one holds `n`.
abbrev pub Cumulative : ℕ → List ℕ → Type 0
Cumulative n [] = ⊥
Cumulative n (b ∷ []) = b ≡ n
Cumulative n (b ∷ c ∷ bs) = (b ≤ c) × Cumulative n (c ∷ bs)

-- The bounds go up, and there is one bucket more than there are bounds.
abbrev Fits : List ℕ → List ℕ → Type 0
Fits [] (b ∷ []) = Unit
Fits (x ∷ []) (b ∷ c ∷ []) = Unit
Fits (x ∷ y ∷ xs) (b ∷ c ∷ bs) = (x ≤ y) × Fits (y ∷ xs) (c ∷ bs)
Fits _ _ = ⊥

head-Cumulative : (n b : ℕ) (bs : List ℕ) → Cumulative n (b ∷ bs) → b ≤ n
head-Cumulative n b [] h = omega (arith, h)
head-Cumulative n b (c ∷ bs) h = omega (arith, h.0, head-Cumulative n c bs h.1)

count_bounds-Cumulative :
    (n latency : ℕ) (bounds buckets : List ℕ)
    → n + 1 < 2 ^ 64
    → Fits bounds buckets
    → Cumulative n buckets
    → Cumulative (n + 1) (count_bounds latency bounds buckets)
unfolding count_bounds
count_bounds-Cumulative n latency [] (b ∷ []) small f h = ground (arith, h)
count_bounds-Cumulative n latency [] (b ∷ c ∷ bs) small f h = absurd f
count_bounds-Cumulative n latency bounds [] small f h = absurd h
count_bounds-Cumulative n latency (x ∷ []) (b ∷ []) small f h = absurd f
count_bounds-Cumulative n latency (x ∷ y ∷ xs) (b ∷ []) small f h = absurd f
count_bounds-Cumulative n latency (x ∷ []) (b ∷ c ∷ []) small f h =
    let (below, last) = h in (ground arith, ground arith)
count_bounds-Cumulative n latency (x ∷ []) (b ∷ c ∷ d ∷ bs) small f h = absurd f
count_bounds-Cumulative n latency (x ∷ y ∷ xs) (b ∷ c ∷ bs) small f h =
    let rest = count_bounds-Cumulative n latency (y ∷ xs) (c ∷ bs) small f.1 h.1 in
    let top = head-Cumulative n c bs h.1 in let below = h.0 in let up = f.0 in (ground arith, rest)

-- An observation keeps a cumulative histogram of eight buckets cumulative, its last bucket being
-- the count of observations, which goes up by one. The count is below the largest value of its
-- type.
pub observe_queue_latency-Cumulative :
    {S : Type 0} (now b0 b1 b2 b3 b4 b5 b6 b7 : ℕ) (t : Task) (s : Scheduler S)
    → s.queue_latency_buckets ≡ b0 ∷ b1 ∷ b2 ∷ b3 ∷ b4 ∷ b5 ∷ b6 ∷ b7 ∷ []
    → s.queue_latency_count + 1 < 2 ^ 64
    → Cumulative s.queue_latency_count s.queue_latency_buckets
    → ((observe_queue_latency now t s).queue_latency_count ≡ s.queue_latency_count + 1)
      × Cumulative (s.queue_latency_count + 1) (observe_queue_latency now t s).queue_latency_buckets
unfolding observe_queue_latency
observe_queue_latency-Cumulative now b0 b1 b2 b3 b4 b5 b6 b7 t s eight small h = (
  ground arith,
  rw eight (
      count_bounds-Cumulative s.queue_latency_count (now - t.run_at) queue_latency_bounds
        (b0 ∷ b1 ∷ b2 ∷ b3 ∷ b4 ∷ b5 ∷ b6 ∷ b7 ∷ []) small fits (rw eight at h)),
)
  where
    fits : Fits queue_latency_bounds (b0 ∷ b1 ∷ b2 ∷ b3 ∷ b4 ∷ b5 ∷ b6 ∷ b7 ∷ [])
    fits =
        (omega arith, (omega arith, (omega arith, (omega arith, (omega arith, (omega arith, tt))))))
