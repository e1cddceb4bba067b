-- ===== src/Api/Tasks/Listing.antt =====
-- internal/api/server.go: the answer to a GET of /tasks, which filters and cuts the list.
use job_raft.Base.{ap, All, refl}
use job_raft.Scheduler.{list}
use job_raft.Scheduler.{Scheduler}
use job_raft.Store.{ok, Store}
use job_raft.Api.{task_list, write_json, Request, Library}
use job_raft.Api.Tasks.{list_tasks}
use job_raft.Api.Filter.{read_limit, valid_status, cut_to, take, filter_tasks, passes, status_text}
use job_raft.Task.{Task}
use job_raft.Base.{
  In, not, some, ◌&&◌, ◌≤◌, ltb, length, zero, suc, ℕ, false, inr, eq_iff, inl, ◌==◌, arith,
  Bool-cases, true, ◌≡◌, ◌⊎◌, String, List, [], ◌∷◌,
}

-- The task has the status and the name that were asked for; an empty text asks for nothing.
abbrev pub Fits : String → String → Task → Type 0
Fits status name t =
    ((status ≡ "") ⊎ (status_text t.status ≡ status)) × ((name ≡ "") ⊎ (t.name ≡ name))

passes→Fits : (status name : String) (t : Task) → passes status name t ≡ true → Fits status name t
unfolding passes
passes→Fits status name t h = (
  elim (Bool-cases (status == "")) [
    | inl none' ↦ inl ((eq_iff status "").0 none')
    | inr asked ↦ inr ((eq_iff (status_text t.status) status).0 (ground arith))
  ],
  elim (Bool-cases (name == "")) [
    | inl none' ↦ inl ((eq_iff name "").0 none')
    | inr asked ↦ inr ((eq_iff t.name name).0 (ground arith))
  ],
)

Fits→passes : (status name : String) (t : Task) → Fits status name t → passes status name t ≡ true
unfolding passes
Fits→passes status name t h = ground (
  arith,
  eq_iff status "",
  eq_iff name "",
  eq_iff (status_text t.status) status,
  eq_iff t.name name,
)

kept_cases :
    (status name : String) (u t : Task) (us : List Task)
    → passes status name u ≡ true
    → In t (filter_tasks status name (u ∷ us))
    → (t ≡ u) ⊎ In t (filter_tasks status name us)
unfolding filter_tasks
kept_cases status name u t us kept h = rw (kept, filter_tasks) at h

dropped_case :
    (status name : String) (u t : Task) (us : List Task)
    → passes status name u ≡ false
    → In t (filter_tasks status name (u ∷ us))
    → In t (filter_tasks status name us)
unfolding filter_tasks
dropped_case status name u t us dropped h = rw (dropped, filter_tasks) at h

filter_tasks_sound :
    (status name : String) (ts : List Task) (t : Task)
    → In t (filter_tasks status name ts)
    → In t ts × Fits status name t
unfolding filter_tasks
filter_tasks_sound status name [] t h = elim h [ ]
filter_tasks_sound status name (u ∷ us) t h = elim (Bool-cases (passes status name u)) [
  | inl kept ↦ elim (kept_cases status name u t us kept h) [
    | inl same ↦ (inl same, rw same (passes→Fits status name u kept))
    | inr later ↦ let (there, fits) = filter_tasks_sound status name us t later in (inr there, fits)
  ]
  | inr dropped ↦
      let (there, fits) =
        filter_tasks_sound status name us t (dropped_case status name u t us dropped h) in
      (inr there, fits)
]

filter_tasks_complete :
    (status name : String) (ts : List Task) (t : Task)
    → In t ts
    → Fits status name t
    → In t (filter_tasks status name ts)
unfolding filter_tasks
filter_tasks_complete status name [] t h fits = elim h [ ]
filter_tasks_complete status name (u ∷ us) t h fits = elim h [
  | inl same ↦
      let kept : passes status name u ≡ true = Fits→passes status name u (rw (← same) fits) in
      rw (kept, filter_tasks) (inl same)
  | inr later ↦
      let rest = filter_tasks_complete status name us t later fits in
      elim (Bool-cases (passes status name u)) [
        | inl kept ↦ rw (kept, filter_tasks) (inr rest)
        | inr dropped ↦ rw (dropped, filter_tasks) rest
      ]
]

take-In : (n : ℕ) (ts : List Task) (t : Task) → In t (take n ts) → In t ts
unfolding take
take-In zero ts t h = elim h [ ]
take-In (suc n) [] t h = h
take-In (suc n) (u ∷ us) t (inl same) = inl same
take-In (suc n) (u ∷ us) t (inr later) = inr (take-In n us t later)

length-take : (n : ℕ) (ts : List Task) → length (take n ts) ≤ n
unfolding take
length-take zero ts = ground arith
length-take (suc n) [] = ground arith
length-take (suc n) (u ∷ us) = ground (arith, length-take n us)

cut_to-In : (limit : ℕ) (ts : List Task) (t : Task) → In t (cut_to limit ts) → In t ts
unfolding cut_to
cut_to-In limit ts t h = elim (Bool-cases (ltb 0 limit && ltb limit (length ts))) [
  | inl cut ↦ take-In limit ts t (rw (cut, cut_to) at h)
  | inr whole ↦ rw (whole, cut_to) at h
]

length-cut_to : (limit : ℕ) (ts : List Task) → (limit ≡ 0) ⊎ (length (cut_to limit ts) ≤ limit)
unfolding cut_to
length-cut_to zero ts = inl refl
length-cut_to (suc n) ts = inr (ground (arith, length-take (suc n) ts))

In→All : {P : Task → Type 0} (ts : List Task) → ((t : Task) → In t ts → P t) → All P ts
In→All [] h = tt
In→All (t ∷ ts) h = (h t (inl refl), In→All ts (λ u there. h u (inr there)))

list_tasks-cut_to :
    {S : Type 0} (lib : Library) (api : Store S) (r : Request) (s : Scheduler S) (all : List Task)
    (limit : ℕ)
    → list api s ≡ ok all
    → (r.query "status" ≡ "") ⊎ (valid_status (r.query "status") ≡ true)
    → read_limit lib (r.query "limit") ≡ some limit
    → list_tasks lib api r s
      ≡ write_json 200
          (task_list (cut_to limit (filter_tasks (r.query "status") (r.query "name") all)))
unfolding list_tasks
list_tasks-cut_to lib api r s all limit listed valid given =
    let status = r.query "status" in
    let known : (not (status == "") && not (valid_status status)) ≡ false = elim valid [
      | inl none' ↦ rw none' refl
      | inr known ↦ ground (arith, known)
    ] in
    rw (listed, known, given, list_tasks) refl

-- The answer to a GET of /tasks is a list of stored tasks that have the status and the name that
-- were asked for, at most as many as the limit, if there is one. The store can be listed, the status
-- is none or a valid one, and the limit is none, which reads as 0, or a positive number.
pub list_tasks_lem :
    {S : Type 0} (lib : Library) (api : Store S) (r : Request) (s : Scheduler S) (all : List Task)
    (limit : ℕ)
    → list api s ≡ ok all
    → (r.query "status" ≡ "") ⊎ (valid_status (r.query "status") ≡ true)
    → read_limit lib (r.query "limit") ≡ some limit
    → (ts : List Task) × (list_tasks lib api r s ≡ write_json 200 (task_list ts))
      × All (λ t. In t all × Fits (r.query "status") (r.query "name") t) ts
      × ((limit ≡ 0) ⊎ (length ts ≤ limit))
list_tasks_lem lib api r s all limit listed valid given =
    let status = r.query "status" in
    let name = r.query "name" in
    let kept = filter_tasks status name all in
    (
      cut_to limit kept,
      list_tasks-cut_to lib api r s all limit listed valid given,
      In→All (cut_to limit kept)
          (λ t h. filter_tasks_sound status name all t (cut_to-In limit kept t h)),
      length-cut_to limit kept,
    )

-- Without a limit the answer to a GET of /tasks has every stored task with the status and the name
-- that were asked for. The store can be listed, and the status is none or a valid one.
pub list_tasks_complete :
    {S : Type 0} (lib : Library) (api : Store S) (r : Request) (s : Scheduler S) (all : List Task)
    (t : Task)
    → list api s ≡ ok all
    → (r.query "status" ≡ "") ⊎ (valid_status (r.query "status") ≡ true)
    → r.query "limit" ≡ ""
    → In t all
    → Fits (r.query "status") (r.query "name") t
    → (ts : List Task) × (list_tasks lib api r s ≡ write_json 200 (task_list ts)) × In t ts
unfolding cut_to read_limit
list_tasks_complete lib api r s all t listed valid unlimited there fits =
    let kept = filter_tasks (r.query "status") (r.query "name") all in
    (
      cut_to 0 kept,
      list_tasks-cut_to lib api r s all 0 listed valid (ap (read_limit lib) unlimited),
      filter_tasks_complete (r.query "status") (r.query "name") all t there fits,
    )
