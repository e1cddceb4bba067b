-- ===== src/Scheduler/Recover/Reaped.antt =====
-- internal/scheduler/scheduler.go: what the reaping of a lapsed lease comes to.
use job_raft.Scheduler.Complete.{valid_lease, complete_task_with_result}
use job_raft.Task.{status_eq→eq, invalid_lease, running, is_terminal, Task, validate}
use job_raft.Store.{ok, Store}
use job_raft.Base.{ℕ, ◌≡◌, ◌≢◌, String, true, none, some, List, arith}
use job_raft.Scheduler.{unreserve, write_if_state, cancel_running, Scheduler, add_one}
use job_raft.Store.Contract.{IsLawful}
use job_raft.Scheduler.Dispatch.Start.{write-get}
use job_raft.Scheduler.Moves.{write_if_state_hit}
use job_raft.Scheduler.Moves.Methods.{store-cancel_running}
use job_raft.Scheduler.Recover.{put_back, lease_lapsed, reap_one, reap_write, count_reaped}

put_back-validate :
    (now : ℕ) (reason : String) (t : Task)
    → validate t ≡ none
    → now ≢ 0
    → validate (put_back now reason t) ≡ none
unfolding validate put_back
put_back-validate now reason t fine late = ground arith

lease_expired-cancel_running :
    {S : Type 0} (id : String) (s : Scheduler S)
    → (cancel_running id s).lease_expired ≡ s.lease_expired
unfolding cancel_running
lease_expired-cancel_running id s = ground arith

module _ {S : Type 0} (api : Store S) (law : IsLawful api) where
  -- With a conditional write the reaping is that write, counted.
  reap_one_written :
      (now : ℕ) (t : Task) (s : Scheduler S)
      → lease_lapsed now t ≡ true
      → reap_one api now t s
        ≡ count_reaped api
            (write_if_state api t.id running t.lease_token
              (put_back now "worker lease expired" t)
              s.store)
            (unreserve t.id (cancel_running t.id s))
  unfolding reap_one reap_write write_if_state lease_lapsed is_terminal
  reap_one_written now t s lapsed =
      let h = law.has_updater in let kept = store-cancel_running t.id s in ground arith

  -- The reaping, at a time other than zero, of a stored, valid task whose lease has lapsed
  -- puts the record back to be run again, without a holder, and counts one expired lease.
  -- After it a completion by whatever worker, with whatever token, is refused and changes
  -- nothing. The store keeps the contract of Store/Contract.
  pub reaped_holder_refused :
      (now later later' : ℕ) (worker token failure : String) (result : List ℕ) (t : Task)
      (s : Scheduler S)
      → api.get t.id s.store ≡ ok t
      → validate t ≡ none
      → now ≢ 0
      → lease_lapsed now t ≡ true
      → (api.get t.id (reap_one api now t s).store ≡ ok (put_back now "worker lease expired" t))
        × ((reap_one api now t s).lease_expired ≡ add_one s.lease_expired)
        × (complete_task_with_result api later later' worker t.id token failure result
              (reap_one api now t s)
            ≡ (some invalid_lease, reap_one api now t s))
  unfolding complete_task_with_result valid_lease count_reaped put_back lease_lapsed
  reaped_holder_refused now later later' worker token failure result t s found fine late lapsed =
      let u = put_back now "worker lease expired" t in
      let ran : t.status ≡ running = status_eq→eq t.status running (ground arith) in
      let valid = put_back-validate now "worker lease expired" t fine late in
      let steps = reap_one_written now t s lapsed in
      let wrote = write_if_state_hit api law t.id u t s.store valid found in
      let held = write-get api law t.id t u s.store found valid in
      let counted = lease_expired-cancel_running t.id s in
      let stored' : api.get t.id (reap_one api now t s).store ≡ ok u = ground arith in
      (stored', ground arith, ground arith)
