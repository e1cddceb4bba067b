-- ===== src/Cmd.antt =====
-- cmd/jobraft/main.go: how the server's program puts its parts together from the environment. The log
-- lines, the listener and the signals are not part of the model; `log.Fatalf` is a result.
pub mod Settings
pub mod Started
use job_raft.Scheduler.Lifecycle.{start}
use job_raft.Base.{
  ltb_ℤ, ℕ, ◌⊎◌, inl, inr, String, true, not, Option, none, some, ◌==◌, if◌then◌else◌, ℤ, pos,
}
use job_raft.Api.{Library, Server, new_with_token, new_with_cluster_token}
use job_raft.Cluster.{is_leader, RegistryErr, Elector, new_elector}
use job_raft.Scheduler.{register, set_leader_gate, new, set_lease_ttl, set_max_pending, Scheduler}
use job_raft.Store.{Store}
use job_raft.Task.{Task, Err}

-- What the program ends with before it serves.
pub data Fatal : Type 0 where
  postgres_unavailable : Err → Fatal
  file_store_unavailable : Err → Fatal
  bad_workers bad_max_pending bad_lease_ttl : Fatal
  cluster_file_unavailable : RegistryErr → Fatal
  election_setup_failed : RegistryErr → Fatal

-- `os.Getenv` and `filepath.Clean`, and the constructors of the stores and registries behind their
-- interfaces.
pub record World (S R : Type 0) : Type 0 where
  pub getenv : String → String
  pub clean : String → String
  pub memory_store : S
  pub open_postgres : String → Err ⊎ S
  pub open_file : String → Err ⊎ S
  pub memory_nodes : R
  pub file_nodes : String → RegistryErr ⊎ R

-- `elector` is none without a node identifier.
pub record Program (S R : Type 0) : Type 0 where
  pub server : Server S R
  pub elector : Option Elector
  pub addr : String

-- The handler "echo".
abbrev pub echo : Task → Option String
echo t = none

-- A value of the environment as a positive integer.
unfoldable pub positive : Option ℤ → Option ℤ
positive none = none
positive (some n) = if ltb_ℤ n (pos 1) then none else some n

module _ {S R : Type 0} (lib : Library) (world : World S R) where
  unfoldable pub open_store : Fatal ⊎ S
  open_store =
      let dsn = world.getenv "JOBRAFT_DATABASE_URL" in
      let path = world.getenv "JOBRAFT_STORE" in
      if not (dsn == "")
      then elim (world.open_postgres dsn) [ inl e ↦ inl (postgres_unavailable e) | inr st ↦ inr st ]
      else if not (path == "")
      then elim (world.open_file (world.clean path)) [
        | inl e ↦ inl (file_store_unavailable e)
        | inr st ↦ inr st
      ]
      else inr world.memory_store

  unfoldable pub worker_count : Fatal ⊎ ℤ
  worker_count =
      let value = world.getenv "JOBRAFT_WORKERS" in
      if value == ""
      then inr (pos 4)
      else elim (positive (lib.atoi value)) [ none ↦ inl bad_workers | some n ↦ inr n ]

  unfoldable pub limit_pending : Scheduler S → Fatal ⊎ Scheduler S
  limit_pending s =
      let value = world.getenv "JOBRAFT_MAX_PENDING" in
      if value == "" then inr s else elim (positive (lib.atoi value)) [
        | none ↦ inl bad_max_pending
        | some n ↦ inr (set_max_pending n s)
      ]

  unfoldable pub limit_lease : Scheduler S → Fatal ⊎ Scheduler S
  limit_lease s =
      let value = world.getenv "JOBRAFT_LEASE_TTL" in
      if value == "" then inr s else elim (positive (lib.parse_duration value)) [
        | none ↦ inl bad_lease_ttl
        | some d ↦ inr (set_lease_ttl d s)
      ]

  -- The scheduler before it starts.
  unfoldable pub set_up_scheduler : Fatal ⊎ Scheduler S
  set_up_scheduler = elim open_store [
    | inl e ↦ inl e
    | inr st ↦ elim worker_count [
      | inl e ↦ inl e
      | inr n ↦ elim (limit_pending (new st n)) [
        | inl e ↦ inl e
        | inr s ↦ elim (limit_lease s) [
          | inl e ↦ inl e
          | inr s' ↦ inr (register "echo" (some echo) s').1
        ]
      ]
    ]
  ]

  unfoldable pub choose_registry : Fatal ⊎ R
  choose_registry =
      let path = world.getenv "JOBRAFT_CLUSTER_FILE" in
      if path == "" then inr world.memory_nodes else elim (world.file_nodes (world.clean path)) [
        | inl e ↦ inl (cluster_file_unavailable e)
        | inr nodes ↦ inr nodes
      ]

  -- `server.Addr`
  unfoldable pub listen_addr : String
  listen_addr = let addr = world.getenv "JOBRAFT_ADDR" in if addr == "" then ":8080" else addr

  -- The election of a node with an identifier; `Start` of the elector only begins its loop, whose
  -- renewals come later.
  unfoldable pub join_cluster : Scheduler S → Fatal ⊎ Program S R
  join_cluster s = elim choose_registry [
    | inl e ↦ inl e
    | inr nodes ↦ elim (new_elector (world.getenv "JOBRAFT_NODE_ID") (pos 10000000000)) [
      | inl e ↦ inl (election_setup_failed e)
      | inr elector ↦
          let started = record elector { started = true } in
          inr (record {
            server =
                new_with_cluster_token (set_leader_gate (is_leader started) s) nodes
                  (world.getenv "JOBRAFT_API_TOKEN");
            elector = some started;
            addr = listen_addr;
          })
    ]
  ]

  -- `main`, up to the point where it serves. The readings of the clock are those of `Start`.
  unfoldable pub boot : Store S → ℕ → ℕ → (ℕ → ℕ) → Fatal ⊎ Program S R
  boot api now_name now_recover clock = elim set_up_scheduler [
    | inl e ↦ inl e
    | inr s ↦
        let running' = start api now_name now_recover clock s in
        let joined = join_cluster running' in
        if world.getenv "JOBRAFT_NODE_ID" == ""
        then inr (record {
          server = new_with_token running' (world.getenv "JOBRAFT_API_TOKEN");
          elector = none;
          addr = listen_addr;
        })
        else joined
  ]
