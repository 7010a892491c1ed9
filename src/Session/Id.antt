-- ===== src/Session/Id.antt =====
-- bp/session/Id.{cxx,hxx}: the cluster node of a session id, and `AdjustNewSessionId` of
-- bp/session/Manager.cxx.
pub mod Node
use cm4all_beng_proxy.Common.{
  ℕ, ◌+◌, ◌-◌, ◌%◌, ◌^◌, Bool, true, false, ◌&&◌, not, ltb, ◌==◌, if◌then◌else◌,
}
use cm4all_beng_proxy.Session.{SessionId}

unfoldable pub is_defined : SessionId → Bool
is_defined id = not (id.low == 0 && id.high == 0)

-- a sticky_hash_t, which has 32 bits
unfoldable pub get_cluster_hash : SessionId → ℕ
get_cluster_hash id = id.high % 2 ^ 32

-- in 64 bits; the assertion says that the remainder is below the size
unfoldable pub to_cluster_node : ℕ → ℕ → ℕ → ℕ
to_cluster_node id cluster_size cluster_node =
    let remainder = (id % 2 ^ 32) % (cluster_size % 2 ^ 32) in
    (id - remainder + cluster_node) % 2 ^ 64

unfoldable pub set_cluster_node : ℕ → ℕ → SessionId → SessionId
unfolding get_cluster_hash to_cluster_node
set_cluster_node cluster_size cluster_node id = record id {
  high = to_cluster_node (get_cluster_hash id) cluster_size cluster_node;
}

unfoldable pub adjust_new_session_id : ℕ → ℕ → SessionId → SessionId
unfolding set_cluster_node
adjust_new_session_id cluster_size cluster_node id =
    if ltb 0 cluster_size then set_cluster_node cluster_size cluster_node id else id
