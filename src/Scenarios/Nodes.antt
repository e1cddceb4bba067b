-- ===== src/Scenarios/Nodes.antt =====
-- A small registry of nodes.
use job_raft.Base.{insert, ◌≡◌, refl, false, some, [], ◌∷◌, ◌==◌, if◌then◌else◌, lookup, pos}
use job_raft.Base.{str_ltb}
use job_raft.Cluster.{
  drop_expired, as_followers, first_id, promote, crown, Node, Nodes, renew, leader, follower,
}
use job_raft.Cluster.Elects.{renew_elects}
use job_raft.Cluster.First.{elected}

abbrev node_a : Node
node_a = record { id = "a"; role = leader; last_contact = 1; lease_until = 9 }

abbrev one_node : Nodes
one_node = ("a", node_a) ∷ []

renewed_a : lookup "a" (renew 5 "b" (pos 10) one_node).1 ≡ some node_a
unfolding lookup insert renew crown promote first_id as_followers drop_expired
renewed_a = refl

renew_elects_example :
    (str_ltb "a" (elected (renew 5 "b" (pos 10) one_node).1) ≡ false)
    × (node_a.role
        ≡ (if elected (renew 5 "b" (pos 10) one_node).1 == "a" then leader else follower))
    × (n : Node) × (lookup
          (elected (renew 5 "b" (pos 10) one_node).1)
          (renew 5 "b" (pos 10) one_node).1
        ≡ some n)
renew_elects_example = renew_elects 5 "b" (pos 10) one_node "a" node_a refl refl renewed_a
