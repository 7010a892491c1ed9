-- ===== src/Session/Id/Node.antt =====
-- A new session id is sent to the cluster node that made it: Id.cxx and PickGeneric.hxx.
use native.Mathlib.Nat.{mod-eq_of_lt, mod-add-div, mul-add-mod_self_left}
use cm4all_beng_proxy.Common.{
  ℕ, ◌+◌, ◌-◌, ◌*◌, ◌/◌, ◌%◌, ◌^◌, ◌<◌, ◌≡◌, ap, ◌∙◌, true, false, some, arith, ltb, ◌==◌, refl,
  Bool-cases, inl, inr,
}
use cm4all_beng_proxy.Session.{SessionId}
use cm4all_beng_proxy.Session.Id.{
  get_cluster_hash, to_cluster_node, set_cluster_node, adjust_new_session_id,
}
use cm4all_beng_proxy.Cluster.{
  Check, pick_modulo, RoundRobinBalancer, StickyMode, by_hash, pick_mode, pick_generic,
}
use cm4all_beng_proxy.Cluster.Pick.{pick_modulo-selected}

-- a hash with its remainder taken away, and another one added
replaced : (h size node : ℕ) → node < size → (h - h % size + node) % size ≡ node
replaced h size node lt =
    let parts = mod-add-div h size in
    let same : h - h % size + node ≡ size * (h / size) + node = omega (arith, parts) in
    ap (λ x. x % size) same ∙ mul-add-mod_self_left size (h / size) node ∙ mod-eq_of_lt lt

cluster_hash-set_cluster_node :
    (size node : ℕ) (id : SessionId)
    → node < size
    → size < 2 ^ 32
    → get_cluster_hash id - get_cluster_hash id % size + node < 2 ^ 32
    → get_cluster_hash (set_cluster_node size node id)
      ≡ get_cluster_hash id - get_cluster_hash id % size + node
unfolding set_cluster_node to_cluster_node get_cluster_hash
cluster_hash-set_cluster_node size node id lt small fits =
    let h = id.high % 2 ^ 32 in
    let hash_small : h % 2 ^ 32 ≡ h = omega arith in
    let size_small : size % 2 ^ 32 ≡ size = omega arith in rw (hash_small, size_small) (omega arith)

-- A session id that a node of a cluster makes leads back to this node: PickGeneric, by the session and
-- with the id's cluster hash, picks the member with the number of the node, if this member passes its
-- check, and the balancer is not used. The number is below the size, the size is a 32-bit number, and
-- the new hash is not 0 and has no more than 32 bits.
pub pick_generic-adjust_new_session_id :
    (check : Check) (size node : ℕ) (id : SessionId) (b : RoundRobinBalancer)
    → node < size
    → size < 2 ^ 32
    → 0 < get_cluster_hash id - get_cluster_hash id % size + node
    → get_cluster_hash id - get_cluster_hash id % size + node < 2 ^ 32
    → check node true ≡ true
    → pick_generic check StickyMode.session_modulo size
        (get_cluster_hash (adjust_new_session_id size node id))
        b
      ≡ some (node, b)
unfolding adjust_new_session_id pick_generic pick_mode by_hash
pick_generic-adjust_new_session_id check size node id b lt small nonzero fits good =
    let hash = get_cluster_hash (set_cluster_node size node id) in
    let some_nodes : ltb 0 size ≡ true = ground arith in
    let is : hash ≡ get_cluster_hash id - get_cluster_hash id % size + node =
      cluster_hash-set_cluster_node size node id lt small fits in
    let at_node : hash % size ≡ node =
      ap (λ x. x % size) is ∙ replaced (get_cluster_hash id) size node lt in
    let hashed : (hash == 0) ≡ false = ground (arith, is, nonzero) in
    elim (Bool-cases (size == 1)) [
      | inl one ↦ let first : node ≡ 0 = ground arith in rw (some_nodes, one, first) refl
      | inr more ↦
          let picked : pick_modulo check size hash ≡ some node =
            pick_modulo-selected check size hash (ground arith)
              (ap (λ x. check x true) at_node ∙ good)
            ∙ ap some at_node in
          rw (some_nodes, more, hashed, picked) refl
    ]
