-- ===== src/Api/Effects.antt =====
-- internal/api/server.go: what a request of a worker does to the scheduler, as calls of the scheduler.

use job_raft.Api.Workers.{
  worker_reply, list_or_register_workers, beat, renewed_reply, after_workers, renew_target, path_id,
  worker_renew,
}
use job_raft.Api.Poll.Ends.{poll_cases}
use job_raft.Scheduler.Calls.Reached.{ByCalls-one, ByCalls-refl, ByCalls-trans, ByCalls}
use job_raft.Task.{Task}
use job_raft.Api.Poll.{claim_retry_min, claim_deadline, worker_claim, pause, back_off, Round, poll}
use job_raft.Store.{err, ok, Worker, Result, Store}
use job_raft.Base.{
  Sum-cases, split_slash, trim_suffix, Option-cases, ℕ, zero, suc, ◌-◌, refl, inl, inr, String,
  Option, none, some, ◌==◌, Bool-cases,
}
use job_raft.Api.{Library, Request, Response}
use job_raft.Scheduler.{Scheduler}
use job_raft.Scheduler.Calls.{registers, renews, Call, perform}

-- What a handler that may wait leaves is reached by calls.
abbrev pub EndsByCalls :
    {S : Type 0} → Store S → Scheduler S → Option (Response × Scheduler S) → Type 0
EndsByCalls api s none = Unit
EndsByCalls api s (some (response, s')) = ByCalls api s s'

module _ {S : Type 0} (api : Store S) where
  EndsByCalls-trans :
      {s s' : Scheduler S} (o : Option (Response × Scheduler S))
      → ByCalls api s s'
      → EndsByCalls api s' o
      → EndsByCalls api s o
  EndsByCalls-trans none h k = tt
  EndsByCalls-trans (some r) h k = ByCalls-trans api h k

  pub poll-ByCalls :
      (fuel deadline interval : ℕ) (rounds : ℕ → Round) (id : String) (s : Scheduler S)
      → EndsByCalls api s (poll api fuel deadline interval rounds id s)
  unfolding poll
  poll-ByCalls zero deadline interval rounds id s = tt
  poll-ByCalls (suc fuel) deadline interval rounds id s =
      let wait = pause interval (deadline - (rounds 0).now_until) in
      let next : Scheduler S → Option (Response × Scheduler S) =
        λ s'. poll api fuel deadline (back_off wait) (λ n. rounds (suc n)) id s' in
      elim (poll_cases api fuel deadline interval rounds id s) [
        | inl (r, s', e, answer, reached) ↦ rw e reached
        | inr (s', e, left, reached) ↦ rw e (
            EndsByCalls-trans (next s') reached
              (poll-ByCalls fuel deadline (back_off wait) (λ n. rounds (suc n)) id s'))
      ]

  pub worker_claim-ByCalls :
      (lib : Library) (fuel now : ℕ) (rounds : ℕ → Round) (r : Request) (s : Scheduler S)
      → EndsByCalls api s (worker_claim api lib fuel now rounds r s)
  unfolding worker_claim
  worker_claim-ByCalls lib fuel now rounds r s = elim (Bool-cases (r.method == "POST")) [
    | inr other ↦ rw (other, worker_claim) (ByCalls-refl api s)
    | inl post ↦ elim (Option-cases (path_id lib (trim_suffix (after_workers r) "/claim"))) [
      | inl p ↦ rw (post, p, worker_claim) (ByCalls-refl api s)
      | inr (id, p) ↦
          rw (post, p, worker_claim)
            (poll-ByCalls fuel (claim_deadline lib now (r.query "wait")) claim_retry_min rounds id
              s)
    ]
  ]

  renewed_reply-ByCalls :
      (s : Scheduler S) (p : Result Task × Scheduler S)
      → ByCalls api s p.1
      → ByCalls api s (renewed_reply p).1
  renewed_reply-ByCalls s (ok t, s') h = h
  renewed_reply-ByCalls s (err e, s') h = h

  worker_reply-ByCalls :
      (good bad : ℕ) (s : Scheduler S) (p : Result Worker × Scheduler S)
      → ByCalls api s p.1
      → ByCalls api s (worker_reply good bad p).1
  worker_reply-ByCalls good bad s (ok t, s') h = h
  worker_reply-ByCalls good bad s (err e, s') h = h

  pub worker_renew-ByCalls :
      (lib : Library) (now now_until : ℕ) (r : Request) (s : Scheduler S)
      → ByCalls api s (worker_renew lib api now now_until r s).1
  unfolding worker_renew perform
  worker_renew-ByCalls lib now now_until r s = elim (Bool-cases (r.method == "POST")) [
    | inr other ↦ rw (other, worker_renew) (ByCalls-refl api s)
    | inl post ↦ elim (Option-cases (renew_target (split_slash (after_workers r)))) [
      | inl p ↦ rw (post, p, worker_renew) (ByCalls-refl api s)
      | inr (escaped, p) ↦ elim (Option-cases (path_id lib escaped)) [
        | inl q ↦ rw (post, p, q, worker_renew) (ByCalls-refl api s)
        | inr (id, q) ↦ elim (Sum-cases (lib.decode_lease_token r.body)) [
          | inl (problem, d) ↦ rw (post, p, q, d, worker_renew) (ByCalls-refl api s)
          | inr (token, d) ↦
              let call = renews now now_until id (r.query "task") token in
              rw (post, p, q, d, worker_renew)
                (renewed_reply-ByCalls s _ (ByCalls-one api call refl))
        ]
      ]
    ]
  ]

  pub beat-ByCalls :
      (lib : Library) (now : ℕ) (r : Request) (s : Scheduler S)
      → ByCalls api s (beat lib api now r s).1
  unfolding beat perform
  beat-ByCalls lib now r s = elim (Bool-cases (r.method == "POST")) [
    | inr other ↦ rw (other, beat) (ByCalls-refl api s)
    | inl post ↦ elim (Option-cases (path_id lib (after_workers r))) [
      | inl p ↦ rw (post, p, beat) (ByCalls-refl api s)
      | inr (id, p) ↦
          rw (post, p, beat)
            (worker_reply-ByCalls 200 404 s _ (ByCalls-one api (Call.beats now id) refl))
    ]
  ]

  pub list_or_register_workers-ByCalls :
      (lib : Library) (now : ℕ) (r : Request) (s : Scheduler S)
      → ByCalls api s (list_or_register_workers lib api now r s).1
  unfolding list_or_register_workers perform
  list_or_register_workers-ByCalls lib now r s = elim (Bool-cases (r.method == "GET")) [
    | inl read ↦ rw (read, list_or_register_workers) (ByCalls-refl api s)
    | inr write ↦ elim (Bool-cases (r.method == "POST")) [
      | inr other ↦ rw (write, other, list_or_register_workers) (ByCalls-refl api s)
      | inl post ↦ elim (Sum-cases (lib.decode_id r.body)) [
        | inl (problem, d) ↦ rw (write, post, d, list_or_register_workers) (ByCalls-refl api s)
        | inr (id, d) ↦
            rw (write, post, d, list_or_register_workers)
              (worker_reply-ByCalls 201 400 s _ (ByCalls-one api (registers now id) refl))
      ]
    ]
  ]
