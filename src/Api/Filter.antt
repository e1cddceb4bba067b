-- ===== src/Api/Filter.antt =====
-- internal/api/server.go: the filters and the limit of a listing of tasks.

use job_raft.Task.{canceled, retrying, failed, success, unset, running, pending, Status, Task}
use job_raft.Base.{
  eq_ℕ, ℕ, zero, suc, String, Bool, not, ◌&&◌, ◌||◌, Option, none, some, List, [], ◌∷◌, ◌==◌, ltb,
  if◌then◌else◌, length, pos,
}
use job_raft.Api.{Library}

unfoldable pub status_text : Status → String
status_text unset = ""
status_text pending = "pending"
status_text running = "running"
status_text success = "success"
status_text failed = "failed"
status_text retrying = "retrying"
status_text canceled = "canceled"

-- `validStatus`
unfoldable pub valid_status : String → Bool
valid_status value =
    value == status_text pending
    || value == status_text running
    || value == status_text success
    || value == status_text failed
    || value == status_text retrying
    || value == status_text canceled

unfoldable pub passes : String → String → Task → Bool
passes status name t =
    not (not (status == "") && not (status_text t.status == status))
    && not (not (name == "") && not (t.name == name))

-- `filtered`
unfoldable pub filter_tasks : String → String → List Task → List Task
filter_tasks status name [] = []
filter_tasks status name (t ∷ ts) =
    let rest = filter_tasks status name ts in if passes status name t then t ∷ rest else rest

-- `filtered[:limit]`
unfoldable pub take {ℓ} : {A : Type ℓ} → ℕ → List A → List A
take zero xs = []
take (suc n) [] = []
take (suc n) (x ∷ xs) = x ∷ take n xs

-- The number that ?limit= asks for: 0 without one, none where it is no positive integer.
unfoldable pub read_limit : Library → String → Option ℕ
read_limit lib raw =
    if raw == ""
    then some 0
    else elim (lib.atoi raw) [ some (pos n) ↦ if eq_ℕ n 0 then none else some n | _ ↦ none ]

unfoldable pub cut_to : ℕ → List Task → List Task
cut_to limit ts = if ltb 0 limit && ltb limit (length ts) then take limit ts else ts
