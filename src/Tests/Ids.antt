-- ===== src/Tests/Ids.antt =====
-- Session ids in a cluster of three nodes.
use cm4all_beng_proxy.Common.{◌%◌, ◌≡◌, refl, true, some, arith}
use cm4all_beng_proxy.Session.{SessionId}
use cm4all_beng_proxy.Session.Id.{
  get_cluster_hash, set_cluster_node, to_cluster_node, adjust_new_session_id,
}
use cm4all_beng_proxy.Session.Id.Node.{pick_generic-adjust_new_session_id}
use cm4all_beng_proxy.Cluster.{Check, RoundRobinBalancer, StickyMode, pick_generic}

abbrev all_well : Check
all_well i fade = true

abbrev sample : SessionId
sample = record { low = 5; high = 1000000 }

abbrev balancer : RoundRobinBalancer
balancer = record { next = 1 }

pick_generic-adjust_new_session_id_example :
    pick_generic all_well StickyMode.session_modulo 3
      (get_cluster_hash (adjust_new_session_id 3 2 sample))
      balancer
    ≡ some (2, balancer)
pick_generic-adjust_new_session_id_example =
    pick_generic-adjust_new_session_id all_well 3 2 sample balancer (omega arith) (omega arith)
      (unfold get_cluster_hash in omega arith) (unfold get_cluster_hash in omega arith) refl

-- The new hash can have one bit too many, which is lost.
wrapped : get_cluster_hash (set_cluster_node 3 2 (record { low = 5; high = 4294967295 })) % 3 ≡ 1
unfolding get_cluster_hash set_cluster_node to_cluster_node
wrapped = refl

-- The upper half of the number is lost.
halved : set_cluster_node 3 2 (record { low = 5; high = 4294967296 }) ≡ record { low = 5; high = 2 }
unfolding set_cluster_node to_cluster_node get_cluster_hash
halved = refl
