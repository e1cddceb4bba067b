-- ===== src/Api/Views.antt =====
-- internal/api/server.go: the handlers that only look: readiness, the admin page, the cluster and
-- the metrics.
use job_raft.Scheduler.Metrics.{metrics}
use job_raft.Store.{ok, err, Store}
use job_raft.Task.{retrying, running, pending, status_eq, Task, Status}
use job_raft.Base.{ℕ, suc, not, Option, none, some, List, [], ◌∷◌, ◌==◌, if◌then◌else◌, length}
use job_raft.Scheduler.Workers.{workers}
use job_raft.Scheduler.{list}
use job_raft.Cluster.{Registry}
use job_raft.Api.{
  exposition, state, view, write_json, admin_page, failed_text, only_status, Request, Response,
}
use job_raft.Scheduler.{Scheduler}

-- The number of tasks with the status.
unfoldable pub count_status : Status → List Task → ℕ
count_status status [] = 0
count_status status (t ∷ ts) =
    let rest = count_status status ts in if status_eq t.status status then suc rest else rest

unfoldable pub admin : Request → Response
admin r = if not (r.method == "GET") then only_status 405 else record {
  code = 200;
  headers = ("Content-Type", "text/html; charset=utf-8") ∷ [];
  body = admin_page;
}

-- `Leader` is called before `List`.
unfoldable pub view_cluster :
    {R : Type 0} → Registry R → ℕ → ℕ → Request → Option R → Response × Option R
view_cluster registry now_leader now_list r none =
    (failed_text 501 "cluster election is not configured", none)
view_cluster registry now_leader now_list r (some nodes) =
    if not (r.method == "GET")
    then (only_status 405, some nodes)
    else let (leader, nodes') = registry.leader now_leader nodes in
      let (all, nodes'') = registry.list now_list nodes' in
      (write_json 200 (view leader all), some nodes'')

module _ {S : Type 0} (api : Store S) where
  unfoldable pub ready : Request → Scheduler S → Response
  ready r s = if not (r.method == "GET") then only_status 405 else elim (list api s) [
    | err e ↦ write_json 503 (state "not_ready" (some e))
    | ok _ ↦ write_json 200 (state "ready" none)
  ]

  -- The gauges of a store that fails are 0.
  unfoldable pub show_metrics : ℕ → Request → Scheduler S → Response
  show_metrics now r s =
      let listed : List Task = elim (list api s) [ ok all ↦ all | err e ↦ [] ] in
      if not (r.method == "GET") then only_status 405 else record {
        code = 200;
        headers = ("Content-Type", "text/plain; version=0.0.4") ∷ [];
        body =
            exposition (metrics s) (count_status pending listed) (count_status running listed)
              (count_status retrying listed) (length (workers api now s)) s.queue_latency_buckets
              s.queue_latency_sum s.queue_latency_count;
      }
