-- ===== src/Scenarios/Groups.antt =====
-- A consensus group, and a registry in a file, at which the theorems on them are applied.
use job_raft.Fileutil.{replace}
use job_raft.Cluster.Consensus.Quorum.{apply_command-quorum, Sublist}
use job_raft.Cluster.FileRegistry.Agrees.{renew_file-renew, AreDistinct, HasNodes, ReadsBack}
use job_raft.Cluster.Consensus.Committed.{HasCommitted, committed, last_index}
use job_raft.Cluster.Consensus.Reachable.{
  applies, extends, call_all-last_index, call_group, joins, call_all, GroupCall,
}
use job_raft.Base.{
  arith, split_slash, has_slash, erase, All, map, insert, Assoc, ℕ, suc, ◌*◌, ◌≡◌, refl, ◌<◌, ◌⊎◌,
  inl, inr, String, true, false, none, some, List, [], ◌∷◌, ◌==◌, if◌then◌else◌, lookup, length,
  pos,
}
use job_raft.Cluster
use job_raft.Cluster.{leader, follower, Node, Nodes, RegistryErr}
use job_raft.Cluster.Consensus.{
  new_consensus_registry, modify, commit_all, apply_machines, insert_by_id, best_leader, leader_key,
  leads, members_of, key_of, join, apply_command, ReplicatedLog, ConsensusGroup, ConsensusRegistry,
  LogEntry, ConsensusErr,
}
use job_raft.Cluster.FileRegistry.{
  write_nodes, renewed_nodes, renew_locked, try_lock, renew_file, read_nodes, NodesEncoding,
  LockFiles, lock,
}
use job_raft.Store.{ok}
use job_raft.Scenarios.Json.{
  Node-discrete, is_made, is_made_cons, printed, read_back, printed-filled, read_back-printed,
}
use job_raft.Scenarios.Files.{map_disk, map_disk-IsDisk}

-- Machines that count the entries they take.
abbrev counting : ReplicatedLog ℕ
counting = record { apply_entry = λ e n. (none, suc n) }

abbrev lone_member : ConsensusGroup ℕ
lone_member = record { id = "x"; group = "g"; term = 0; commit = 0; log = []; machine = 0 }

-- A group of one member, with a lease that runs until 50.
abbrev lone_group : ConsensusRegistry ℕ
lone_group = record { groups = ("g/x", lone_member) ∷ []; leases = ("g/x", 50) ∷ [] }

lone_member-found : lookup "g/x" lone_group.groups ≡ some lone_member
unfolding lookup
lone_member-found = refl

apply_command-quorum_example :
    ((e : ConsensusErr) × ((apply_command counting 10 11 [] "g/x" lone_member lone_group).0 ≡ inl e)
      × ((j : String)
          → committed j (apply_command counting 10 11 [] "g/x" lone_member lone_group).1.groups
            ≡ committed j lone_group.groups))
    ⊎ ((entry : LogEntry) × (applied : List String) × ((apply_command counting 10 11 [] "g/x"
            lone_member lone_group).0
          ≡ inr entry)
        × Sublist applied (map (λ m. m.0) (members_of lone_member.group lone_group.groups))
        × (length (map (λ m. m.0) (members_of lone_member.group lone_group.groups))
            < length applied * 2)
        × All
            (HasCommitted entry
              (apply_command counting 10 11 [] "g/x" lone_member lone_group).1.groups)
            applied)
apply_command-quorum_example =
    apply_command-quorum counting 10 11 [] "g/x" lone_member lone_group lone_member-found

abbrev group_calls : List (GroupCall ℕ)
group_calls = joins "g" "x" (some 0) ∷ extends 5 (pos 45) "g/x" ∷ applies 10 11 [] "g/x" ∷ []

abbrev first_entry : LogEntry
first_entry = record { term = 1; index = 1; command = []; committed_at = 11 }

one_committed :
    committed "g/x" (call_all counting group_calls new_consensus_registry).groups
    ≡ some (first_entry ∷ [], 1)
unfolding call_all call_group join key_of apply_command leads leader_key best_leader members_of
    insert_by_id apply_machines commit_all modify lookup insert new_consensus_registry
    Cluster.Consensus.renew_lease
one_committed = refl

call_all-last_index_example : first_entry.index ≡ last_index (first_entry ∷ [])
call_all-last_index_example =
    call_all-last_index counting group_calls "g/x" (first_entry ∷ []) 1 one_committed

-- The node of a key, at time 10, for a lease of 5: the leader is "m".
abbrev node_of : String → Node
node_of id = record {
  id = id;
  role = if id == "m" then leader else follower;
  last_contact = 10;
  lease_until = 15;
}

-- An encoding of all maps of such nodes.
abbrev toy_nodes : NodesEncoding
toy_nodes = record {
  marshal_indent = printed Node-discrete node_of;
  unmarshal = read_back Node-discrete node_of;
}

toy_nodes-ReadsBack : ReadsBack toy_nodes
toy_nodes-ReadsBack = record {
  not_empty = printed-filled Node-discrete node_of;
  reads_back = λ m text h. (m, read_back-printed Node-discrete node_of m text h, λ id. refl);
}

abbrev two_nodes : Nodes
two_nodes = ("m", node_of "m") ∷ ("n", node_of "n") ∷ []

two_made : is_made Node-discrete node_of two_nodes ≡ true
unfolding has_slash is_made
two_made =
    is_made_cons Node-discrete node_of "m" (("n", node_of "n") ∷ []) refl
      (is_made_cons Node-discrete node_of "n" [] refl refl)

-- A disk on which the file has the node "m".
abbrev old_disk : Assoc String
old_disk = ("cluster", "m/}") ∷ []

-- A lock that is free.
abbrev free_lock : LockFiles (Assoc String)
free_lock = record {
  create_new = λ a d. (none, insert a "" d);
  is_stale = λ a d. false;
  others = λ n d. d;
}

cluster-AreDistinct : AreDistinct "cluster"
cluster-AreDistinct = record { tmp_path = refl; tmp_bak = refl; path_bak = refl; path_lock = refl }

old_read :
    read_nodes map_disk free_lock toy_nodes "cluster"
      (lock map_disk free_lock toy_nodes "cluster" old_disk).1
    ≡ ok (("m", node_of "m") ∷ [])
unfolding read_nodes lock try_lock lookup insert split_slash
old_read = refl

renewed :
    renewed_nodes map_disk free_lock toy_nodes 10 "n" (pos 5) (("m", node_of "m") ∷ []) ≡ two_nodes
unfolding renewed_nodes insert Cluster.crown Cluster.as_followers Cluster.promote Cluster.first_id
    Cluster.drop_expired
renewed = refl

locked : (lock map_disk free_lock toy_nodes "cluster" old_disk).0 ≡ true
unfolding lock try_lock
locked = refl

wrote :
    (write_nodes map_disk free_lock toy_nodes "cluster" two_nodes
      (lock map_disk free_lock toy_nodes "cluster" old_disk).1).0
    ≡ none
unfolding write_nodes lock try_lock replace lookup insert erase
wrote = ground (arith, two_made)

two_nodes-n : lookup "n" two_nodes ≡ some (node_of "n")
unfolding lookup
two_nodes-n = refl

renewed_once :
    (renew_file map_disk free_lock toy_nodes "cluster" 10 "n" (pos 5) old_disk).0
    ≡ inr (node_of "n")
unfolding renew_file renew_locked
renewed_once =
    rw (locked, old_read, renewed, wrote, renew_locked, renew_file)
      (rw renewed (rw two_nodes-n refl))

renew_file-renew_example :
    ((Cluster.renew 10 "n" (pos 5) (("m", node_of "m") ∷ [])).0 ≡ inr (node_of "n"))
    × (m : Nodes) × (read_nodes map_disk free_lock toy_nodes "cluster"
          (renew_file map_disk free_lock toy_nodes "cluster" 10 "n" (pos 5) old_disk).1
        ≡ ok m)
    × HasNodes (Cluster.renew 10 "n" (pos 5) (("m", node_of "m") ∷ [])).1 m
renew_file-renew_example =
    renew_file-renew map_disk free_lock toy_nodes map_disk-IsDisk toy_nodes-ReadsBack "cluster"
      cluster-AreDistinct 10 "n" (pos 5) old_disk (("m", node_of "m") ∷ []) (node_of "n") old_read
      renewed_once
