-- ===== src/Api/Poll.antt =====
-- internal/api/server.go: a worker's claim, which may wait for a task: `workerClaim`. Between two
-- attempts the other goroutines call the scheduler as they like.
pub mod Ends
use job_raft.Api.Workers.{after_workers, path_id}
use job_raft.Task.{Err, no_task, add_time}
use job_raft.Store.{err, ok, Store}
use job_raft.Base.{
  false, true, eq_ℕ, trim_suffix, ltb_ℤ, ℕ, zero, suc, ◌-◌, ◌*◌, String, Bool, not, ◌&&◌, Option,
  none, some, List, ◌==◌, ltb, if◌then◌else◌, pos,
}
use job_raft.Api.{
  failed_with, not_found_response, task, write_json, only_status, Request, Library, Response,
}
use job_raft.Scheduler.{Scheduler}
use job_raft.Scheduler.Claim
use job_raft.Scheduler.Calls.{Call, perform_all}

-- `claimRetryMin` and `claimRetryMax`, in nanoseconds.
abbrev pub claim_retry_min : ℕ
claim_retry_min = 50000000

abbrev pub claim_retry_max : ℕ
claim_retry_max = 500000000

-- The longest wait, 30 s.
abbrev pub max_wait : ℕ
max_wait = 30000000000

-- One round of the loop: the readings of the clock that `Claim` makes, the one of `time.Until`, then
-- whether the client is gone before the timer fires, and what others do to the scheduler meanwhile.
pub record Round : Type 0 where
  pub now_health : ℕ
  pub now : ℕ
  pub clock : ℕ → ℕ
  pub now_until : ℕ
  pub gone : Bool
  pub meanwhile : List Call

-- `deadline`: a wait that is missing, not a duration, not positive or too long is none.
unfoldable pub claim_deadline : Library → ℕ → String → ℕ
claim_deadline lib now wait = if wait == "" then now else elim (lib.parse_duration wait) [
  | none ↦ now
  | some d ↦ if ltb_ℤ (pos 0) d && not (ltb_ℤ (pos max_wait) d) then add_time now d else now
]

-- The pause after an attempt: at most what remains.
unfoldable pub pause : ℕ → ℕ → ℕ
pause interval remaining = if ltb remaining interval then remaining else interval

-- The interval of the next round: doubled, up to the largest.
unfoldable pub back_off : ℕ → ℕ
back_off interval =
    if ltb interval claim_retry_max
    then (if ltb claim_retry_max (interval * 2) then claim_retry_max else interval * 2)
    else interval

-- `err == scheduler.ErrNoTask`
unfoldable pub is_no_task : Err → Bool
is_no_task no_task = true
is_no_task _ = false

-- The context of a request without a client is done, and nothing is written: the library sends 200.
abbrev pub client_gone : Response
client_gone = only_status 200

module _ {S : Type 0} (api : Store S) where
  -- The loop of `workerClaim`, at most `fuel` rounds of it.
  unfoldable pub poll :
      ℕ → ℕ → ℕ → (ℕ → Round) → String → Scheduler S → Option (Response × Scheduler S)
  poll zero deadline interval rounds id s = none
  poll (suc fuel) deadline interval rounds id s =
      let round = rounds 0 in
      elim (Claim.claim api round.now_health round.now round.clock id s) [
        | none ↦ none
        | some (ok t, s') ↦ some (write_json 200 (task t), s')
        | some (err e, s') ↦
            let remaining = deadline - round.now_until in
            let wait = pause interval remaining in
            let s'' = perform_all api round.meanwhile s' in
            let again = poll fuel deadline (back_off wait) (λ n. rounds (suc n)) id s'' in
            if not (is_no_task e)
            then some (failed_with 409 e, s')
            else if eq_ℕ remaining 0
            then some (only_status 204, s')
            else if round.gone
            then some (client_gone, s'')
            else again
      ]

  -- `now` is the reading that the deadline starts from.
  unfoldable pub worker_claim :
      Library → ℕ → ℕ → (ℕ → Round) → Request → Scheduler S → Option (Response × Scheduler S)
  worker_claim lib fuel now rounds r s =
      if not (r.method == "POST")
      then some (only_status 405, s)
      else elim (path_id lib (trim_suffix (after_workers r) "/claim")) [
        | none ↦ some (not_found_response, s)
        | some id ↦ poll fuel (claim_deadline lib now (r.query "wait")) claim_retry_min rounds id s
      ]
