-- ===== src/Scheduler/Cancel/Final.antt =====
-- internal/scheduler/scheduler.go: what cancellation and purging come to.
use job_raft.Scheduler.Calls.{perform_all, Call}
use job_raft.Scheduler.Calls.Frozen.{terminal_frozen, IsPlain}
use job_raft.Scheduler.Cancel.{purge, cancel, canceled_task}
use job_raft.Task.{task_running, not_found, running, status_eq, Err, Task, is_terminal, validate}
use job_raft.Store.{err, ok, Store}
use job_raft.Base.{
  ℕ, ◌≡◌, refl, ◌∙◌, ◌⊎◌, inl, inr, String, true, false, none, some, List, arith, eq_refl, ◌==◌,
  if◌then◌else◌, Bool-cases,
}
use job_raft.Scheduler.{write_if_state, cancel_running, unreserve, Scheduler}
use job_raft.Store.Contract.{IsLawful}
use job_raft.Scheduler.Moves.{write_if_state-ComparesAndSets, write_if_state_hit}
use job_raft.Scheduler.Moves.Methods.{store-cancel_running}

canceled-validate : (now : ℕ) (t : Task) → validate (canceled_task now t) ≡ validate t
unfolding validate canceled_task
canceled-validate now t = refl

canceled-is_terminal : (now : ℕ) (t : Task) → is_terminal (canceled_task now t) ≡ true
unfolding is_terminal canceled_task
canceled-is_terminal now t = refl

module _ {S : Type 0} (api : Store S) (law : IsLawful api) where
  cancel-stores :
      (now : ℕ) (id : String) (s : Scheduler S) (t : Task)
      → api.get id s.store ≡ ok t
      → validate t ≡ none
      → is_terminal t ≡ false
      → ((cancel api now id s).0 ≡ none)
        × (api.get id (cancel api now id s).1.store ≡ ok (canceled_task now t))
  unfolding cancel
  cancel-stores now id s t found fine open' =
      let u = canceled_task now t in
      let kept : (unreserve id (cancel_running id s)).store ≡ s.store = store-cancel_running id s in
      let wrote =
        write_if_state_hit api law id u t s.store (canceled-validate now t ∙ fine) found in
      elim (write_if_state-ComparesAndSets api law id t.status t.lease_token u s.store) [
        | inl (e, q, _) ↦ cc (wrote, q)
        | inr (_, _, _, _, _, _, new) ↦
            let here : api.get id (write_if_state api id t.status t.lease_token u s.store).1
                ≡ ok u =
              ground (arith, new id, eq_refl id) in
            (ground arith, ground arith)
      ]

module _ {S : Type 0} (api : Store S) (plain : IsPlain api) where
  -- The cancellation of a stored, valid task that is not terminal succeeds, and its record is
  -- the canceled one through every later sequence of submissions, registrations, heartbeats,
  -- claims, completions, renewals, cancellations, ticks, local runs and stops. The store keeps
  -- the contract of Store/Contract and has neither an atomic claim nor a scanner of its own.
  pub canceled_for_good :
      (now : ℕ) (id : String) (cs : List Call) (s : Scheduler S) (t : Task)
      → api.get id s.store ≡ ok t
      → validate t ≡ none
      → is_terminal t ≡ false
      → ((cancel api now id s).0 ≡ none)
        × (api.get id (perform_all api cs (cancel api now id s).1).store ≡ ok (canceled_task now t))
  canceled_for_good now id cs s t found fine open' =
      let (done', held) = cancel-stores api plain.lawful now id s t found fine open' in
      (
        done',
        terminal_frozen api plain cs (cancel api now id s).1 id (canceled_task now t) held
            (canceled-is_terminal now t),
      )

module _ {S : Type 0} (api : Store S) (law : IsLawful api) where
  -- The purge of a stored task is refused with nothing changed, or the task was not running
  -- and its record is gone, while every other record stays. The store keeps the contract of
  -- Store/Contract.
  pub purge_cases :
      (id : String) (s : Scheduler S) (t : Task)
      → api.get id s.store ≡ ok t
      → ((e : Err) × (purge api id s ≡ (some e, s)))
        ⊎ ((status_eq t.status running ≡ false)
            × ((purge api id s).0 ≡ none)
            × ((j : String)
                → api.get j (purge api id s).1.store
                  ≡ (if id == j then err not_found else api.get j s.store)))
  unfolding purge
  purge_cases id s t found = elim (Bool-cases (status_eq t.status running)) [
    | inl busy ↦ inl (task_running id, ground arith)
    | inr idle ↦ elim (law.delete_cases id s.store) [
      | inl (e, p, q) ↦ inl (e, ground arith)
      | inr (u, _, p, gone) ↦
          let removed : (purge api id s).1.store ≡ (api.delete id s.store).1 = ground arith in
          inr (idle, ground arith, rw removed gone)
    ]
  ]
