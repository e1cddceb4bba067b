-- ===== src/Scheduler/Lifecycle.antt =====
-- internal/scheduler/scheduler.go: `Start`, `Stop`, and the events of the loop between them.
use Prim.Native.String.{◌++◌}
use text.Mathlib.Text.{starts_with}
use job_raft.Base.{
  ℕ, zero, suc, String, true, false, ◌&&◌, ◌||◌, not, List, [], ◌∷◌, Assoc, if◌then◌else◌, decimal,
  decimal_ℤ, is_some,
}
use job_raft.Store.{Store}
use job_raft.Scheduler.{Scheduler, unix_nano}
use job_raft.Scheduler.Workers.{register_worker, heartbeat}
use job_raft.Scheduler.Recover.{recover_running, requeue_running_on_stop}

-- `fmt.Sprintf("local-%d-%d", nanos, i)`
unfoldable pub local_name : ℕ → ℕ → String
local_name now i = "local-" ++ decimal_ℤ (unix_nano now) ("-" ++ decimal i "")

-- The keys of the map that start with the prefix of the local workers.
unfoldable pub local_ids {ℓ} : {V : Type ℓ} → Assoc V → List String
local_ids [] = []
local_ids ((id, w) ∷ m) =
    let rest = local_ids m in if starts_with id "local-" then id ∷ rest else rest

module _ {S : Type 0} (api : Store S) where
  -- The loop of `Start` from worker `i` on; the errors are dropped.
  unfoldable pub register_local : ℕ → ℕ → ℕ → (ℕ → ℕ) → Scheduler S → Scheduler S
  register_local zero i now_name clock s = s
  register_local (suc left) i now_name clock s =
      register_local left (suc i) now_name clock
        (register_worker api (clock i) (local_name now_name i) s).1

  unfoldable pub start : ℕ → ℕ → (ℕ → ℕ) → Scheduler S → Scheduler S
  start now_name now_recover clock s =
      if s.started && not s.stopped
      then s
      else (let s' =
            register_local s.workers 0 now_name clock
              (record s { stopped = false; started = true }) in
          if is_some api.atomic_claimer then s' else recover_running api now_recover s')

  -- What the loop does when its context is canceled.
  unfoldable pub leave_loop : ℕ → Scheduler S → Scheduler S
  leave_loop now s = record (requeue_running_on_stop api now s) { stopped = true; started = false }

  -- `Stop` waits for the loop to leave.
  unfoldable pub stop : ℕ → Scheduler S → Scheduler S
  stop now s =
      if not s.started || s.stopped then s else leave_loop now (record s { stopped = true })

  -- The tick of the heartbeat timer: one heartbeat for each local worker.
  unfoldable pub heartbeat_all : (ℕ → ℕ) → List String → Scheduler S → Scheduler S
  heartbeat_all clock [] s = s
  heartbeat_all clock (id ∷ ids) s =
      heartbeat_all (λ n. clock (suc n)) ids (heartbeat api (clock 0) id s).1

  unfoldable pub heartbeat_local : (ℕ → ℕ) → Scheduler S → Scheduler S
  heartbeat_local clock s = heartbeat_all clock (local_ids s.workers_by_id) s
