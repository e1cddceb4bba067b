-- ===== src/Cluster/FileRegistry/Agrees.antt =====
-- internal/cluster/file_registry.go: the registry in a file, beside the one in memory.
use job_raft.Cluster.Elects.{lookup-crown}
use job_raft.Store.{Result-cases, ok}
use Prim.Native.String.{◌++◌}
use job_raft.Base.{
  ltb_ℤ, ℕ, ◌≡◌, refl, sym, ap, ◌∙◌, inl, inr, String, false, not, ◌||◌, none, some, arith, ◌==◌,
  Bool-cases, Option-cases, lookup, ℤ, pos,
}
use job_raft.Cluster.{drop_expired, follower, Node, Nodes, RegistryErr, Registry}
use job_raft.Cluster
use job_raft.Fileutil.{FileSystem, replace}
use job_raft.Fileutil.Safe.{replace-Kept, IsDisk}
use job_raft.Cluster.FileRegistry.{
  renewed_nodes, renew_locked, unlock, renew_file, read_nodes, write_nodes, LockFiles,
  NodesEncoding, lock,
}
use job_raft.Task.{add_time}

-- The same node, or none, under each identifier. The keys of a Go map have no order, and its JSON has
-- them sorted.
abbrev pub HasNodes : Nodes → Nodes → Type 0
HasNodes m m' = (id : String) → lookup id m' ≡ lookup id m

-- What encoding/json promises of its output: it is not empty and reads back as a map with the same
-- nodes.
pub record ReadsBack (json : NodesEncoding) : Type 0 where
  pub not_empty :
      (m : Nodes) (text : String) → json.marshal_indent m ≡ ok text → (text == "") ≡ false
  pub reads_back :
      (m : Nodes) (text : String)
      → json.marshal_indent m ≡ ok text
      → (m' : Nodes) × (json.unmarshal text ≡ ok m') × HasNodes m m'

-- The names of the files beside the registry's are different from it and from each other.
pub record AreDistinct (path : String) : Type 0 where
  pub tmp_path : (path ++ ".tmp" == path) ≡ false
  pub tmp_bak : (path ++ ".tmp" == path ++ ".bak") ≡ false
  pub path_bak : (path == path ++ ".bak") ≡ false
  pub path_lock : (path == path ++ ".lock") ≡ false

module _ {D : Type 0} (fs : FileSystem D) (locks : LockFiles D) (json : NodesEncoding)
    (disk : IsDisk fs) (trips : ReadsBack json) (path : String) (names : AreDistinct path) where
  -- A write that reports no error is read back.
  write_nodes-read :
      (nodes : Nodes) (d : D)
      → (write_nodes fs locks json path nodes d).0 ≡ none
      → (m : Nodes) × (read_nodes fs locks json path (write_nodes fs locks json path nodes d).1
          ≡ ok m)
        × HasNodes nodes m
  unfolding write_nodes read_nodes
  write_nodes-read nodes d h = elim (Result-cases (json.marshal_indent nodes)) [
    | inl (e, p) ↦ absurd (ground arith)
    | inr (text, p) ↦
        let tmp = path ++ ".tmp" in
        elim (Option-cases (fs.write tmp text d).0) [
          | inr (e, q) ↦ absurd (ground arith)
          | inl q ↦
              let d' = (fs.write tmp text d).1 in
              let done' : (replace fs tmp path d').0 ≡ none = ground arith in
              let stored' : fs.read path (replace fs tmp path d').1 ≡ ok (some text) =
                elim (replace-Kept fs disk tmp path d' names.tmp_path names.tmp_bak
                  names.path_bak) [
                    | inl new ↦ new ∙ disk.write_target tmp text d q
                    | inr (e, no', _) ↦ cc (done', no')
                  ] in
              let full = trips.not_empty nodes text p in
              let (m, back, same) = trips.reads_back nodes text p in (m, ground arith, same)
        ]
  ]

  -- Giving the lock back leaves the registry's file.
  unlock-read :
      (d : D)
      → read_nodes fs locks json path (unlock fs locks json path d)
        ≡ read_nodes fs locks json path d
  unfolding read_nodes unlock
  unlock-read d = ground (arith, disk.remove_others (path ++ ".lock") path d names.path_lock)

  -- A renewal that reports a node gives the node that the registry in memory gives for the map that
  -- the file had when the lock was taken, and the file is left with the nodes that the one in memory
  -- is left with. The disk does what package os documents, the JSON reads back, and the names of
  -- the file, its lock, its temporary file and its backup are different.
  pub renew_file-renew :
      (now : ℕ) (id : String) (ttl : ℤ) (d : D) (nodes : Nodes) (n : Node)
      → read_nodes fs locks json path (lock fs locks json path d).1 ≡ ok nodes
      → (renew_file fs locks json path now id ttl d).0 ≡ inr n
      → ((Cluster.renew now id ttl nodes).0 ≡ inr n)
        × (m : Nodes) × (read_nodes fs locks json path
              (renew_file fs locks json path now id ttl d).1
            ≡ ok m)
        × HasNodes (Cluster.renew now id ttl nodes).1 m
  unfolding renew_file renew_locked renewed_nodes Cluster.renew
  renew_file-renew now id ttl d nodes n found h =
      let d' = (lock fs locks json path d).1 in
      let nodes' = renewed_nodes fs locks json now id ttl nodes in
      let written = write_nodes fs locks json path nodes' d' in
      elim (Bool-cases (id == "" || not (ltb_ℤ (pos 0) ttl))) [
        | inl bad ↦ absurd (ground (arith, h, bad))
        | inr good ↦ elim (Bool-cases (lock fs locks json path d).0) [
          | inr late ↦ absurd (ground (arith, h, good, late))
          | inl held ↦ elim (Option-cases written.0) [
            | inr (e, p) ↦ absurd (ground (arith, h, good, held, found, p))
            | inl wrote ↦
                let (m, read, same) = write_nodes-read nodes' d' wrote in
                let kept = unlock-read written.1 in
                let node : Node = record {
                  id = id;
                  role = follower;
                  last_contact = now;
                  lease_until = add_time now ttl;
                } in
                let (k, there) = lookup-crown id node (drop_expired now nodes) in
                let served : renew_file fs locks json path now id ttl d
                    ≡ (inr k, unlock fs locks json path written.1) =
                  rw (good, held, found, wrote, there, renewed_nodes, renew_locked, renew_file)
                    refl in
                let first : inr k ≡ inr n = ap (λ x. x.0) (sym served) ∙ h in
                let memory : Cluster.renew now id ttl nodes ≡ (inr k, nodes') =
                  rw (good, there, Cluster.renew) refl in
                (
                  ap (λ x. x.0) memory ∙ first,
                  m,
                  ap (λ x. read_nodes fs locks json path x.1) served ∙ kept ∙ read,
                  λ j. same j ∙ ap (λ x. lookup j x.1) (sym memory),
                )
          ]
        ]
      ]
