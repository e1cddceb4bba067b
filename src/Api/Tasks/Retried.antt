-- ===== src/Api/Tasks/Retried.antt =====
-- internal/api/server.go: a POST to /tasks that a client sends again.
use job_raft.Scheduler.Submit.Capacity.{resubmit_refused, submit-found}
use job_raft.Scheduler.Submit.{with_defaults, submit, find_by_idempotency_key}
use job_raft.Store.{ok, Result-cases, Store}
use job_raft.Task.{duplicate_task, Task, Err}
use job_raft.Api.Tasks.{
  submitted_task, idempotency_key_of, is_duplicate_key, Moment, submit_tasks, submit_reply,
  refusal_code,
}
use job_raft.Base.{
  Sum-cases, eq_ℕ, ℕ, ◌≡◌, refl, sym, ap, ◌∙◌, inl, inr, String, false, not, ◌&&◌, none, some,
  arith, ◌==◌, ltb, Bool-cases, Option-cases,
}
use Prim.Native.String.{len}
use mathlib.Core.Path.{subst}
use job_raft.Scheduler.{get, Scheduler}
use job_raft.Api.{task, Submission, write_json, Request, Library}
use job_raft.Store.Memory.{MemoryStore, memory}

-- No submission that failed is answered with 201.
refusal_code_lem : (e : Err) → (eq_ℕ (refusal_code e) 201) ≡ false
unfolding refusal_code
refusal_code_lem e = ground arith

submit_reply-err :
    {S : Type 0} (api : Store S) (key id : String) (e : Err) (s : Scheduler S)
    → (eq_ℕ (submit_reply api key id (some e, s)).code 201) ≡ false
unfolding submit_reply write_json
submit_reply-err api key id e s = elim (Bool-cases (not (key == "") && is_duplicate_key e)) [
  | inr other ↦ rw (other, submit_reply) (refusal_code_lem e)
  | inl repeats ↦ elim (Result-cases (find_by_idempotency_key api key s.store)) [
    | inl (e', p) ↦ rw (repeats, p, submit_reply) (refusal_code_lem e)
    | inr (t, p) ↦ rw (repeats, p, submit_reply) refl
  ]
]

-- A submission that is answered with 201 was decoded, had a key of at most 256 bytes, and went
-- through.
created_cases :
    (lib : Library) (m : Moment) (r : Request) (s : Scheduler MemoryStore)
    → (submit_tasks lib memory m r s).0.code ≡ 201
    → (sub : Submission) × (lib.decode_submission r.body ≡ inr sub)
      × (ltb 256 (len (idempotency_key_of lib r)) ≡ false)
      × ((submit memory m.depth m.submit_id
            (m.clock 1)
            (m.clock 2)
            (submitted_task (m.clock 0) m.new_id (idempotency_key_of lib r) sub)
            s).0
          ≡ none)
unfolding submit_tasks write_json
created_cases lib m r s created' = elim (Sum-cases (lib.decode_submission r.body)) [
  | inl (problem, d) ↦ absurd (ground (arith, created', d))
  | inr (sub, d) ↦ elim (Bool-cases (ltb 256 (len (idempotency_key_of lib r)))) [
    | inl long ↦ absurd (ground (arith, created', d, long))
    | inr fits ↦
        let key = idempotency_key_of lib r in
        let t = submitted_task (m.clock 0) m.new_id key sub in
        let done = submit memory m.depth m.submit_id (m.clock 1) (m.clock 2) t s in
        let replied : (submit_tasks lib memory m r s).0 ≡ submit_reply memory key t.id done =
          rw (d, fits, submit_tasks) refl in
        elim (Option-cases done.0) [
          | inl went ↦ (sub, d, fits, went)
          | inr (e, p) ↦
              let no : eq_ℕ (submit_tasks lib memory m r s).0.code 201 ≡ false =
                ap (λ x. eq_ℕ x.code 201) replied
                ∙ ap (λ d. eq_ℕ (submit_reply memory key t.id d).code 201) (λ i. (p i, done.1))
                ∙ submit_reply-err memory key t.id e done.1 in
              absurd (ground (arith, no, created'))
        ]
  ]
]

-- The identifier that a POST submits is the client's, or the fresh one.
submitted_id :
    (now : ℕ) (new_id key : String) (sub : Submission)
    → (new_id == "") ≡ false
    → ((submitted_task now new_id key sub).id == "") ≡ false
unfolding submitted_task
submitted_id now new_id key sub named = ground (arith, named)

with_defaults-id :
    (new_id : String) (m n : ℕ) (t : Task)
    → (t.id == "") ≡ false
    → (with_defaults new_id m n t).id ≡ t.id
unfolding with_defaults
with_defaults-id new_id m n t h = ground (arith, h)

reply_created :
    {S : Type 0} (api : Store S) (key id : String) (t : Task) (s : Scheduler S)
    → api.get id s.store ≡ ok t
    → submit_reply api key id (none, s) ≡ write_json 201 (task t)
unfolding submit_reply get
reply_created api key id t s h = ground (arith, h)

reply_repeated :
    {S : Type 0} (api : Store S) (key id other : String) (t : Task) (s : Scheduler S)
    → (key == "") ≡ false
    → find_by_idempotency_key api key s.store ≡ ok t
    → submit_reply api key id (some (duplicate_task other), s) ≡ write_json 200 (task t)
unfolding submit_reply is_duplicate_key
reply_repeated api key id other t s keyed h = ground (arith, keyed, h)

-- A POST that is sent again with the same idempotency key is answered with 200 and the very task
-- that the first one was answered with, and it changes nothing. The first POST was answered with
-- 201, at a memory store, and the second one comes right after it; its body only has to be JSON of
-- the right shape. The key is not empty, and neither is the identifier that NewID gives.
pub submit_tasks-again :
    (lib : Library) (m m' : Moment) (r r' : Request) (s : Scheduler MemoryStore) (sub' : Submission)
    → (submit_tasks lib memory m r s).0.code ≡ 201
    → (m.new_id == "") ≡ false
    → (idempotency_key_of lib r == "") ≡ false
    → idempotency_key_of lib r' ≡ idempotency_key_of lib r
    → lib.decode_submission r'.body ≡ inr sub'
    → (t : Task) × ((submit_tasks lib memory m r s).0 ≡ write_json 201 (task t))
      × (submit_tasks lib memory m' r' (submit_tasks lib memory m r s).1
          ≡ (write_json 200 (task t), (submit_tasks lib memory m r s).1))
unfolding submit_tasks submitted_task
submit_tasks-again lib m m' r r' s sub' created' named keyed same d' =
    let (sub, d, fits, went) = created_cases lib m r s created' in
    let key = idempotency_key_of lib r in
    let t = submitted_task (m.clock 0) m.new_id key sub in
    let done = submit memory m.depth m.submit_id (m.clock 1) (m.clock 2) t s in
    let s' = done.1 in
    let whole : done ≡ (none, s') = λ i. (went i, s') in
    let t' = with_defaults m.submit_id (m.clock 1) (m.clock 2) t in
    let (by_key, by_id) =
      submit-found m.depth m.submit_id (m.clock 1) (m.clock 2) t s s' whole keyed in
    let u = submitted_task (m'.clock 0) m'.new_id (idempotency_key_of lib r') sub' in
    let again : submit memory m'.depth m'.submit_id (m'.clock 1) (m'.clock 2) u s'
        ≡ (some (duplicate_task t'.id), s') =
      resubmit_refused m.depth m'.depth m.submit_id m'.submit_id (m.clock 1) (m.clock 2)
        (m'.clock 1) (m'.clock 2) t u s s' whole keyed same in
    let first : submit_tasks lib memory m r s ≡ (submit_reply memory key t.id done, s') =
      rw (d, fits, submit_tasks) refl in
    let created'' : submit_reply memory key t.id done ≡ write_json 201 (task t') =
      ap (submit_reply memory key t.id) whole
      ∙ reply_created memory key t.id t' s' (
          ap (λ j. memory.get j s'.store)
            (sym (
              with_defaults-id m.submit_id (m.clock 1) (m.clock 2) t
                (submitted_id (m.clock 0) m.new_id key sub named)))
          ∙ by_id) in
    let fits' : ltb 256 (len (idempotency_key_of lib r')) ≡ false =
      ap (λ k. ltb 256 (len k)) same ∙ fits in
    let second : submit_tasks lib memory m' r' s' ≡ (
      submit_reply memory (idempotency_key_of lib r') u.id (some (duplicate_task t'.id), s'),
      s',
    ) =
      rw (d', fits', submit_tasks)
        (λ i. (submit_reply memory (idempotency_key_of lib r') u.id (again i), (again i).1)) in
    let repeated : submit_reply memory (idempotency_key_of lib r') u.id
          (some (duplicate_task t'.id), s')
        ≡ write_json 200 (task t') =
      ap (λ k. submit_reply memory k u.id (some (duplicate_task t'.id), s')) same
      ∙ reply_repeated memory key u.id t'.id t' s' keyed by_key in
    (
      t',
      ap (λ p. p.0) first ∙ created'',
      subst (λ x. submit_tasks lib memory m' r' x ≡ (write_json 200 (task t'), x))
          (sym (ap (λ p. p.1) first)) (second ∙ λ i. (repeated i, s')),
    )
