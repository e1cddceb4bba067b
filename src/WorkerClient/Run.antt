-- ===== src/WorkerClient/Run.antt =====
-- pkg/workerclient/client.go: the loop of a worker, and the renewals while a handler runs. Which case
-- of a `select` comes next is a `Signal`.

use job_raft.Base.{
  ◌/◌, ltb_ℤ, ℕ, zero, suc, ◌+◌, ◌-◌, ◌*◌, ◌≡◌, ◌≤◌, ◌<◌, ◌⊎◌, inl, inr, String, Bool, true, false,
  not, ◌&&◌, ◌||◌, Option, none, some, List, [], ◌∷◌, arith, ◌==◌, ltb, if◌then◌else◌, Bool-cases,
  ℤ, pos, negsuc,
}
use job_raft.WorkerClient.{
  renew_lease, no_task_available, failed, claim_wait, register_self, send_heartbeat, complete_run,
  context_done, Client, Wire, ClientErr,
}
use job_raft.Task.{Task}

-- While the handler runs: it ends, with its error, if any; the ticker fires, with the context done
-- then and after a renewal that failed; or the context is done.
pub data Signal : Type 0 where
  handled : Option String → Signal
  ticked : Bool → Bool → Signal
  interrupted : Signal

-- What `Run` meets between two heartbeats: the signals of a handler, of which it takes at most
-- `fuel`, and whether the context is done in an idle wait.
pub record Turn : Type 0 where
  pub fuel : ℕ
  pub signals : ℕ → Signal
  pub stopped : Bool

abbrev second : ℕ
second = 1000000000

-- `interval`, if it is positive, else a second.
unfoldable pub or_second : ℤ → ℤ
or_second interval = if ltb_ℤ (pos 0) interval then interval else pos second

-- The interval of the ticker of `runHandler`: a third of what remains of the lease, if that is
-- shorter. A lease that is over leaves nothing positive.
unfoldable pub renew_interval : ℕ → ℤ → Task → ℤ
renew_interval now fallback t = or_second (elim t.lease_until [
  | none ↦ fallback
  | some until ↦
      let remaining = (until - now) / 3 in
      if ltb 0 remaining && (not (ltb_ℤ (pos 0) fallback) || ltb_ℤ (pos remaining) fallback)
      then pos remaining
      else fallback
])

module _ {W : Type 0} (wire : Wire W) where
  -- The loop of `runHandler`: the handler's error, or the error that stopped it.
  unfoldable pub run_handler :
      ℕ → (ℕ → Signal) → Client → Task → W → Option ((ClientErr ⊎ Option String) × W)
  run_handler zero signals c t w = none
  run_handler (suc fuel) signals c t w = elim (signals 0) [
    | handled run_err ↦ some (inr run_err, w)
    | interrupted ↦ some (inl context_done, w)
    | ticked over over_after ↦
        let renewed = renew_lease wire c t w in
        let later = run_handler fuel (λ n. signals (suc n)) c t renewed.1 in
        if over then some (inl context_done, w) else elim renewed.0 [
          | inr _ ↦ later
          | inl e ↦ some (inl (if over_after then context_done else e), renewed.1)
        ]
  ]

  -- What the loop of `Run` does with the end of a handler.
  abbrev acknowledge :
      Client → Task → Option ((ClientErr ⊎ Option String) × W) → Option (Option ClientErr × W)
  acknowledge c t none = none
  acknowledge c t (some (inl e, w)) = some (some e, w)
  acknowledge c t (some (inr run_err, w)) = some (complete_run wire c t run_err w)

  -- `errors.Is(err, ErrNoTask)`
  unfoldable pub is_no_task_available : ClientErr → Bool
  is_no_task_available no_task_available = true
  is_no_task_available _ = false

  -- One turn of the loop of `Run`: the error that it returns with, if any.
  unfoldable pub take_turn : Client → ℤ → Turn → W → Option (Option ClientErr × W)
  take_turn c interval turn w =
      let beat = send_heartbeat wire c w in
      let claimed = claim_wait wire c interval beat.1 in
      elim beat.0 [
        | some e ↦ some (some e, beat.1)
        | none ↦ elim claimed.0 [
          | inr t ↦ acknowledge c t (run_handler turn.fuel turn.signals c t claimed.1)
          | inl e ↦
              if not (is_no_task_available e)
              then some (some e, claimed.1)
              else if turn.stopped
              then some (some context_done, claimed.1)
              else some (none, claimed.1)
        ]
      ]

  abbrev went_on :
      (W → Option (Option ClientErr × W))
      → Option (Option ClientErr × W)
      → Option (Option ClientErr × W)
  went_on next none = none
  went_on next (some (some e, w)) = some (some e, w)
  went_on next (some (none, w)) = next w

  -- The first turns of the loop of `Run`: the error it returned with, or none if it goes on.
  unfoldable pub run_turns : Client → ℤ → List Turn → W → Option (Option ClientErr × W)
  run_turns c interval [] w = some (none, w)
  run_turns c interval (turn ∷ turns) w =
      went_on (run_turns c interval turns) (take_turn c interval turn w)

  -- `Run`, over its first turns; `has_handler` says that the handler is not nil.
  unfoldable pub run : Client → Bool → List Turn → W → Option (Option ClientErr × W)
  run c has_handler turns w =
      let registered = register_self wire c w in
      if c.worker_id == "" || (c.base_url == "" || not has_handler)
      then some (some (failed "worker id, base URL and handler are required"), w)
      else elim registered.0 [
        | some e ↦ some (some e, registered.1)
        | none ↦ run_turns c (or_second c.poll_interval) turns registered.1
      ]

-- The renewals come often enough: the interval is positive, and while the lease of the task still
-- runs for at least three nanoseconds, three of them fit in what is left of it.
pub renew_interval_lem :
    (now until : ℕ) (fallback : ℤ) (t : Task)
    → t.lease_until ≡ some until
    → now + 3 ≤ until
    → (n : ℕ) × (renew_interval now fallback t ≡ pos n) × (0 < n) × (now + 3 * n ≤ until)
unfolding renew_interval or_second
renew_interval_lem now until (negsuc f) t leased left =
    ((until - now) / 3, ground (arith, leased, left), omega (arith, left), omega (arith, left))
renew_interval_lem now until (pos f) t leased left =
    elim (Bool-cases (ltb 0 f && not (ltb ((until - now) / 3) f))) [
      | inl longer ↦
          (f, ground (arith, leased, left, longer), ground (arith, longer), ground (arith, longer))
      | inr shorter ↦ (
        (until - now) / 3,
        ground (arith, leased, left, shorter),
        omega (arith, left),
        omega (arith, left),
      )
    ]
