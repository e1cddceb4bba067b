-- ===== src/Scheduler/Claim/Exclusive.antt =====
-- internal/scheduler/scheduler.go: one holder at a time. A task that was claimed is not claimed again
-- before its run ends, and a lease token is worth nothing once the task was claimed anew.
use job_raft.Scheduler.Claim.Commit.{commit_claim_cases}
use job_raft.Scheduler.Execute.{still_owned, end_run}
use job_raft.Task.{invalid_lease, claim_lost, add_time, running, Task}
use job_raft.Scheduler.Complete.{valid_lease, renew_task_lease, complete_task_with_result}
use job_raft.Scheduler.Claim.{is_claimable, commit_claim, claimed_task}
use job_raft.Store.Contract.{IsLawful}
use job_raft.Store.{Result, err, ok, Store}
use job_raft.Base.{
  ◌+◌, ◌-◌, ◌*◌, decimal_ℤ_inj, as_int_inj, int_span, ◌%◌, ℕ, ◌≡◌, ◌≢◌, sym, ap, ◌∙◌, inl, inr,
  String, false, Option, some, List, arith, eq_iff, eq_refl, ◌==◌, Bool-cases,
}
use job_raft.Scheduler.{second, unix_nano, lease_token_of, Scheduler}

-- The tokens of two claims are the same only if the claims are of one task, and at times that differ
-- by a multiple of 2^64 ns, some 584 years.
pub lease_token_of_inj :
    (m n : ℕ) (i j : String)
    → lease_token_of m i ≡ lease_token_of n j
    → (m % int_span ≡ n % int_span) × (i ≡ j)
unfolding lease_token_of unix_nano
lease_token_of_inj m n i j e =
    let (p, q) = decimal_ℤ_inj (unix_nano m) (unix_nano n) i j e in (unshift p, q)
  where
    unshift : unix_nano m ≡ unix_nano n → m % int_span ≡ n % int_span
    unshift p =
        let c = 4 * int_span - 62135596800 * second in
        let same =
          as_int_inj ((m + c) % int_span) ((n + c) % int_span) (omega arith) (omega arith) p in
        omega (arith, same)

module _ {S : Type 0} (api : Store S) (law : IsLawful api) where
  -- After a claim of `id` by `worker` at the time `now` the store has the claimed record.
  pub commit_claim-ok :
      (now : ℕ) (worker id : String) (s s' : Scheduler S) (t : Task)
      → commit_claim api now worker id s ≡ (ok t, s')
      → (api.get id s'.store ≡ ok t)
        × (t.status ≡ running)
        × (t.worker_id ≡ worker)
        × (t.lease_token ≡ lease_token_of now id)
        × (t.lease_until ≡ some (add_time now s.lease_ttl))
  unfolding claimed_task
  commit_claim-ok now worker id s s' t e = elim (commit_claim_cases api law now worker id s) [
    | inl (refused, _) ↦ cc (ap (λ (r : Result Task × Scheduler S). r.0) e)
    | inr (current, found, fits, made, new, _) ↦
        let same : claimed_task now worker id current s ≡ t = ground arith in
        let stored' : api.get id s'.store ≡ ok t = ground (arith, new id, eq_refl id) in
        (stored', ground arith, ground arith, ground arith, ground arith)
  ]

  -- A task that was claimed is not claimed again, by whomever and at whatever time, from the
  -- state that the claim left: the second commit is refused and changes nothing. The store
  -- keeps the contract of Store/Contract.
  pub claim_excludes :
      (now later : ℕ) (worker other id : String) (s s' : Scheduler S) (t : Task)
      → commit_claim api now worker id s ≡ (ok t, s')
      → commit_claim api later other id s' ≡ (err claim_lost, s')
  unfolding commit_claim is_claimable
  claim_excludes now later worker other id s s' t e =
      let (held, run, _, _, _) = commit_claim-ok now worker id s s' t e in ground arith

  -- From the state that a claim of a task left, the holder of a token of a claim of it at
  -- another time can neither complete it nor renew the lease: both are refused and change
  -- nothing. The two times do not differ by a multiple of 2^64 ns. A local run that began under that token leaves the store as it is when it ends.
  -- The store keeps the contract of Store/Contract.
  pub stale_holder_refused :
      (first second' now now' : ℕ) (worker old id failure : String) (result : List ℕ)
      (s s' : Scheduler S) (t u : Task) (context : ℕ) (run_err : Option String)
      → first % int_span ≢ second' % int_span
      → commit_claim api second' worker id s ≡ (ok t, s')
      → u.id ≡ id
      → u.lease_token ≡ lease_token_of first id
      → (complete_task_with_result api now now' old id (lease_token_of first id) failure result s'
          ≡ (some invalid_lease, s'))
        × (renew_task_lease api now now' old id (lease_token_of first id) s'
            ≡ (err invalid_lease, s'))
        × ((end_run api now u context run_err s').store ≡ s'.store)
  unfolding complete_task_with_result renew_task_lease end_run still_owned valid_lease
  stale_holder_refused first second' now now' worker old id failure result s s' t u context run_err
        ne e same token =
      let (held, run, _, fresh, _) = commit_claim-ok second' worker id s s' t e in
      let differs : (t.lease_token == lease_token_of first id) ≡ false =
        elim (Bool-cases (t.lease_token == lease_token_of first id)) [
          | inr n ↦ n
          | inl y ↦
              absurd
                (ne (sym (lease_token_of_inj second' first id id (sym fresh ∙ (eq_iff _ _).0 y)).0))
        ] in
      let differs' : (t.lease_token == u.lease_token) ≡ false =
        ap (λ x. t.lease_token == x) token ∙ differs in
      let held' : api.get u.id s'.store ≡ ok t = ap (λ i. api.get i s'.store) same ∙ held in
      (ground arith, ground arith, ground arith)
