-- ===== src/Scenarios/Programs.antt =====
-- A start of the program, at which the theorem on it is applied.
use job_raft.Cmd.Settings.{boot-IsReady, IsReady}
use job_raft.Cmd.Started.{settings}
use job_raft.Api.{new_with_cluster_token}
use job_raft.Scheduler.Lifecycle.{start}
use job_raft.Base.{
  ◌≡◌, refl, ◌⊎◌, inl, inr, true, false, some, [], ◌==◌, if◌then◌else◌, is_some, pos,
}
use job_raft.Cmd.{
  choose_registry, join_cluster, listen_addr, limit_lease, limit_pending, worker_count, open_store,
  set_up_scheduler, World, Program, boot, echo,
}
use job_raft.Cluster.{is_leader, new_elector, no_role, Nodes, Elector}
use job_raft.Store.Memory.{MemoryStore, memory}
use job_raft.Scheduler.{set_leader_gate, register, Scheduler, new}
use job_raft.Scenarios.Requests.{toy_library}
use job_raft.Task.{backend_failed}

-- An environment that only names the node.
abbrev toy_world : World MemoryStore Nodes
toy_world = record {
  getenv = λ k. if k == "JOBRAFT_NODE_ID" then "n" else "";
  clean = λ s. s;
  memory_store = record { tasks = []; workers = [] };
  open_postgres = λ dsn. inl (backend_failed "no database");
  open_file = λ path. inl (backend_failed "no disk");
  memory_nodes = [];
  file_nodes = λ path. inr [];
}

abbrev started_scheduler : Scheduler MemoryStore
started_scheduler =
    start memory 5 5 (λ n. 5)
      (register "echo" (some echo) (new (record { tasks = []; workers = [] }) (pos 4))).1

abbrev started_elector : Elector
started_elector = record {
  id = "n";
  ttl = pos 10000000000;
  node = record { id = ""; role = no_role; last_contact = 0; lease_until = 0 };
  started = true;
}

abbrev program : Program MemoryStore Nodes
program = record {
  server = new_with_cluster_token (set_leader_gate false started_scheduler) [] "";
  elector = some started_elector;
  addr = ":8080";
}

booted : boot toy_library toy_world memory 5 5 (λ n. 5) ≡ inr program
unfolding boot set_up_scheduler open_store worker_count limit_pending limit_lease listen_addr
    join_cluster choose_registry new_elector is_leader
booted = refl

boot-IsReady_example :
    IsReady (settings program.server.scheduler)
    × (program.server.token ≡ toy_world.getenv "JOBRAFT_API_TOKEN")
    × ((toy_world.getenv "JOBRAFT_NODE_ID" ≡ "")
        ⊎ ((program.server.scheduler.leader_gate ≡ some false)
            × (is_some program.server.registry ≡ true)))
boot-IsReady_example = boot-IsReady toy_library toy_world memory 5 5 (λ n. 5) program booted
