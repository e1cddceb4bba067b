-- ===== src/Cluster/FileRegistry.antt =====
-- internal/cluster/file_registry.go: the registry of nodes in a shared file. `D` is the file system with
-- the other processes, which act while this one waits for the lock file.
pub mod Agrees
use job_raft.Store.{ok, err, Result}
use Prim.Native.String.{◌++◌}
use job_raft.Base.{
  insert, ltb_ℤ, ℕ, zero, suc, ◌+◌, ◌-◌, ◌*◌, ◌≡◌, ◌≢◌, refl, sym, ap, ◌∙◌, ◌≤◌, ◌<◌, ◌⊎◌, inl, inr,
  String, Bool, true, false, not, ◌&&◌, ◌||◌, Option, none, some, List, [], ◌∷◌, arith, eq_iff,
  eq_refl, ◌==◌, ltb, if◌then◌else◌, Bool-cases, Option-cases, lookup, is_some, length, ℤ, pos,
  negsuc,
}
use job_raft.Cluster.{
  drop_expired, as_followers, list_nodes, find_leader, lock_timeout, crown, bad_arguments,
  storage_failed, no_role, follower, path_required, Node, Nodes, RegistryErr, Registry,
}
use job_raft.Fileutil.{FileSystem, replace}
use job_raft.Task.{add_time, Err}

-- The calls of package os on the lock file: `create_new` is `OpenFile` with O_CREATE and O_EXCL, and
-- the `Close` after it; `is_stale` says that `Stat` finds the file, changed more than 30 s ago; and
-- `others` is what happens during the sleep of the n-th attempt.
pub record LockFiles (D : Type 0) : Type 0 where
  pub create_new : String → D → Option Err × D
  pub is_stale : String → D → Bool
  pub others : ℕ → D → D

-- The JSON of the map of nodes.
pub record NodesEncoding : Type 0 where
  pub marshal_indent : Nodes → Result String
  pub unmarshal : String → Result Nodes

-- `NewFileRegistry`, which keeps the path.
unfoldable pub new_file_registry : String → RegistryErr ⊎ String
new_file_registry path = if path == "" then inl path_required else inr path

-- `nodes[id]` is the zero Node where there is none.
abbrev pub or_zero : Option Node → Node
or_zero (some n) = n
or_zero none = record { id = ""; role = no_role; last_contact = 0; lease_until = 0 }

module _ {D : Type 0} (fs : FileSystem D) (locks : LockFiles D) (json : NodesEncoding) where
  -- The loop of `lock` with the attempts that are left; true is the lock.
  unfoldable pub try_lock : ℕ → String → D → Bool × D
  try_lock zero lock_path d = (false, d)
  try_lock (suc left) lock_path d =
      let opened = locks.create_new lock_path d in
      let after_removal = try_lock left lock_path (fs.remove lock_path opened.1).1 in
      let after_sleep = try_lock left lock_path (locks.others left opened.1) in
      elim opened.0 [
        | none ↦ (true, opened.1)
        | some _ ↦ if locks.is_stale lock_path opened.1 then after_removal else after_sleep
      ]

  unfoldable pub lock : String → D → Bool × D
  lock path d = try_lock 50 (path ++ ".lock") d

  -- The function that `lock` returns.
  unfoldable pub unlock : String → D → D
  unlock path d = (fs.remove (path ++ ".lock") d).1

  unfoldable pub read_nodes : String → D → Result Nodes
  read_nodes path d = elim (fs.read path d) [
    | err e ↦ err e
    | ok none ↦ ok []
    | ok (some text) ↦ if text == "" then ok [] else json.unmarshal text
  ]

  unfoldable pub write_nodes : String → Nodes → D → Option Err × D
  write_nodes path nodes d = elim (json.marshal_indent nodes) [
    | err e ↦ (some e, d)
    | ok text ↦
        let tmp = path ++ ".tmp" in
        let written = fs.write tmp text d in
        elim written.0 [ some e ↦ (some e, written.1) | none ↦ replace fs tmp path written.1 ]
  ]

  -- The map that a renewal writes.
  unfoldable pub renewed_nodes : ℕ → String → ℤ → Nodes → Nodes
  renewed_nodes now id ttl nodes =
      let n : Node = record {
        id = id;
        role = follower;
        last_contact = now;
        lease_until = add_time now ttl;
      } in
      crown (as_followers (insert id n (drop_expired now nodes)))

  -- `Renew` once the lock is held, without the unlocking.
  unfoldable pub renew_locked : String → ℕ → String → ℤ → D → (RegistryErr ⊎ Node) × D
  renew_locked path now id ttl d = elim (read_nodes path d) [
    | err e ↦ (inl (storage_failed e), d)
    | ok nodes ↦
        let nodes' = renewed_nodes now id ttl nodes in
        let written = write_nodes path nodes' d in
        elim written.0 [
          | some e ↦ (inl (storage_failed e), written.1)
          | none ↦ (inr (or_zero (lookup id nodes')), written.1)
        ]
  ]

  -- `Renew`
  unfoldable pub renew_file : String → ℕ → String → ℤ → D → (RegistryErr ⊎ Node) × D
  renew_file path now id ttl d =
      if id == "" || not (ltb_ℤ (pos 0) ttl)
      then (inl bad_arguments, d)
      else let (held, d') = lock path d in
        if not held
        then (inl lock_timeout, d')
        else let (answer, d'') = renew_locked path now id ttl d' in (answer, unlock path d'')

  -- What `Leader` finds and writes; the error of the write is dropped.
  unfoldable pub leader_locked : String → ℕ → D → Option Node × D
  leader_locked path now d = elim (read_nodes path d) [
    | err e ↦ (none, d)
    | ok nodes ↦
        let (leader, nodes') = find_leader now nodes in (leader, (write_nodes path nodes' d).1)
  ]

  -- `Leader`
  unfoldable pub leader_file : String → ℕ → D → Option Node × D
  leader_file path now d =
      let (held, d') = lock path d in
      if not held
      then (none, d')
      else let (leader, d'') = leader_locked path now d' in (leader, unlock path d'')

  unfoldable pub list_locked : String → ℕ → D → List Node × D
  list_locked path now d = elim (read_nodes path d) [
    | err e ↦ ([], d)
    | ok nodes ↦ let (all, nodes') = list_nodes now nodes in (all, (write_nodes path nodes' d).1)
  ]

  -- `List`
  unfoldable pub list_file : String → ℕ → D → List Node × D
  list_file path now d =
      let (held, d') = lock path d in
      if not held
      then ([], d')
      else let (all, d'') = list_locked path now d' in (all, unlock path d'')

  -- FileRegistry behind the interface.
  unfoldable pub file_registry : String → Registry D
  file_registry path = record {
    renew = renew_file path;
    leader = leader_file path;
    list = list_file path;
  }
