-- ===== src/Api/Poll/Ends.antt =====
-- internal/api/server.go: one round of a claim that waits, and that the rounds come to an end.
use job_raft.Api.Workers.{after_workers, path_id}
use job_raft.Scheduler.Claim.Total.{claim_total}
use job_raft.Scheduler.Calls.Reached.{ByCalls-trans, claim-ByCalls, ByCalls}
use job_raft.Store.{Result-cases, Store}
use job_raft.Api.Poll.{
  worker_claim, claim_deadline, client_gone, is_no_task, back_off, claim_retry_min, poll, pause,
  Round,
}
use job_raft.Base.{
  trim_suffix, negsuc, ◌==◌, pos, Option-cases, eq_ℕ, ℕ, zero, suc, ◌+◌, ◌-◌, ◌*◌, ◌≡◌, refl, ◌∙◌,
  ◌≤◌, ◌<◌, ◌⊎◌, inl, inr, String, some, arith, Bool-cases,
}
use job_raft.Scheduler.Calls.{perform_all}
use job_raft.Scheduler.{Scheduler}
use job_raft.Api.{
  not_found_response, Request, Library, only_status, failed_with, task, write_json, Response,
}

-- The codes that the loop answers with: a task or a client that is gone, no task, or an error.
abbrev pub IsPollAnswer : Response → Type 0
IsPollAnswer r = (r.code ≡ 200) ⊎ ((r.code ≡ 204) ⊎ (r.code ≡ 409))

-- A timer fires no earlier than it was asked to: after a round, the clock has gone on by the
-- shortest interval, or by what remained.
abbrev pub TimersLast : ℕ → (ℕ → Round) → Type 0
TimersLast deadline rounds =
    (n : ℕ)
    → (rounds n).now_until + pause claim_retry_min (deadline - (rounds n).now_until)
      ≤ (rounds (suc n)).now_until

-- The deadline lies at most 30 s ahead.
deadline_near :
    (lib : Library) (now : ℕ) (wait : String) (later : ℕ)
    → now ≤ later
    → claim_deadline lib now wait ≤ later + 600 * claim_retry_min
unfolding claim_deadline
deadline_near lib now wait later order = elim (Option-cases (lib.parse_duration wait)) [
  | inl p ↦ ground (arith, p)
  | inr (pos n, p) ↦ ground (arith, p)
  | inr (negsuc n, p) ↦ ground (arith, p)
]

module _ {S : Type 0} (api : Store S) where
  -- A round answers, or it goes on while there is time left.
  pub poll_cases :
      (fuel deadline interval : ℕ) (rounds : ℕ → Round) (id : String) (s : Scheduler S)
      → ((r : Response) × (s' : Scheduler S) × (poll api (suc fuel) deadline interval rounds id s
            ≡ some (r, s'))
          × IsPollAnswer r
          × ByCalls api s s')
        ⊎ ((s' : Scheduler S) × (poll api (suc fuel) deadline interval rounds id s
              ≡ poll api fuel deadline
                  (back_off (pause interval (deadline - (rounds 0).now_until)))
                  (λ n. rounds (suc n))
                  id
                  s')
            × ((rounds 0).now_until < deadline)
            × ByCalls api s s')
  unfolding poll write_json
  poll_cases fuel deadline interval rounds id s =
      let round = rounds 0 in
      let ((x, s'), claimed) = claim_total api round.now_health round.now round.clock id s in
      let before = claim-ByCalls api round.now_health round.now round.clock id s s' x claimed in
      let s'' = perform_all api round.meanwhile s' in
      let meanwhile : ByCalls api s s'' =
        ByCalls-trans api before (record { calls = round.meanwhile; reached = refl }) in
      elim (Result-cases x) [
        | inr (t, found) ↦
            inl (write_json 200 (task t), s', ground (arith, claimed, found), inl refl, before)
        | inl (problem, refused) ↦ elim (Bool-cases (is_no_task problem)) [
          | inr other ↦ inl (
            failed_with 409 problem,
            s',
            ground (arith, claimed, refused, other),
            inr (inr refl),
            before,
          )
          | inl empty ↦ elim (Bool-cases (eq_ℕ (deadline - round.now_until) 0)) [
            | inl over ↦ inl (
              only_status 204,
              s',
              ground (arith, claimed, refused, empty, over),
              inr (inl refl),
              before,
            )
            | inr left ↦ elim (Bool-cases round.gone) [
              | inl gone ↦ inl (
                client_gone,
                s'',
                ground (arith, claimed, refused, empty, left, gone),
                inl refl,
                meanwhile,
              )
              | inr here' ↦ inr (
                s'',
                ground (arith, claimed, refused, empty, left, here'),
                ground (arith, left),
                meanwhile,
              )
            ]
          ]
        ]
      ]

  -- k shortest intervals take the clock to the deadline: k + 1 rounds are enough.
  pub poll-answers :
      (k deadline interval : ℕ) (rounds : ℕ → Round) (id : String) (s : Scheduler S)
      → TimersLast deadline rounds
      → deadline ≤ (rounds 0).now_until + k * claim_retry_min
      → (r : Response) × (s' : Scheduler S) × (poll api (suc k) deadline interval rounds id s
          ≡ some (r, s'))
        × IsPollAnswer r
  unfolding pause
  poll-answers zero deadline interval rounds id s last near =
      elim (poll_cases zero deadline interval rounds id s) [
        | inl (r, s', e, answer, reached) ↦ (r, s', e, answer)
        | inr (s', e, left, reached) ↦ absurd (omega (arith, left, near))
      ]
  poll-answers (suc k) deadline interval rounds id s last near =
      elim (poll_cases (suc k) deadline interval rounds id s) [
        | inl (r, s', e, answer, reached) ↦ (r, s', e, answer)
        | inr (s', e, left, reached) ↦
            let wait = pause interval (deadline - (rounds 0).now_until) in
            let sooner : deadline ≤ (rounds 1).now_until + k * claim_retry_min =
              ground (arith, near, left, last 0) in
            let (r, s'', e', answer) =
              poll-answers k deadline (back_off wait) (λ n. rounds (suc n)) id s'
                (λ n. last (suc n)) sooner in
            (r, s'', e ∙ e', answer)
      ]

  -- A claim is always answered. However the other goroutines interfere, 601 rounds are enough for
  -- any `wait`, if the clock does not run backwards before the first round and no timer fires early.
  pub worker_claim-answers :
      (lib : Library) (now : ℕ) (rounds : ℕ → Round) (r : Request) (s : Scheduler S)
      → now ≤ (rounds 0).now_until
      → TimersLast (claim_deadline lib now (r.query "wait")) rounds
      → (response : Response) × (s' : Scheduler S) × (worker_claim api lib 601 now rounds r s
          ≡ some (response, s'))
  unfolding worker_claim
  worker_claim-answers lib now rounds r s order last = elim (Bool-cases (r.method == "POST")) [
    | inr other ↦ (only_status 405, s, rw (other, worker_claim) refl)
    | inl post ↦ elim (Option-cases (path_id lib (trim_suffix (after_workers r) "/claim"))) [
      | inl p ↦ (not_found_response, s, rw (post, p, worker_claim) refl)
      | inr (id, p) ↦
          let deadline = claim_deadline lib now (r.query "wait") in
          let (response, s', e, answer) =
            poll-answers 600 deadline claim_retry_min rounds id s last
              (deadline_near lib now (r.query "wait") (rounds 0).now_until order) in
          (response, s', rw (post, p, worker_claim) e)
    ]
  ]
