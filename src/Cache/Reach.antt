-- ===== src/Cache/Reach.antt =====
-- What can happen to a cache of src/cache/Cache.cxx, in any order.
use cm4all_beng_proxy.Common.{
  ℕ, ◌+◌, ◌<◌, ◌≡◌, refl, Bool, true, false, Option, List, count, sum_of, if◌then◌else◌, arith,
}
use cm4all_beng_proxy.Cache
use cm4all_beng_proxy.Cache.{
  Cache, size_mod, on_abandoned, remove, add, remove_all_match, expire_callback, get, put,
}
use cm4all_beng_proxy.Cache.Valid.{IsValid}
use cm4all_beng_proxy.Cache.Room.{IsNew}
use cm4all_beng_proxy.Cache.Put.{add-IsValid, put-IsValid}
use cm4all_beng_proxy.Cache.Match.{
  HashSet, IsHashSet, get_match, put_match, remove_key, remove_key_if, flush,
}
use cm4all_beng_proxy.Cache.Matched.{
  get_match-IsValid, put_match-IsValid, remove_key_if-Removed, flush-Removed,
}
use cm4all_beng_proxy.Cache.Steps.{
  IsFinder, lease, remove-IsValid, remove_loop-IsValid, lease-IsValid, on_abandoned-IsValid,
  get-IsValid,
}

module _ (size_of key_of : ℕ → ℕ) where
  -- On a valid cache, `RemoveAllMatch` removes every item that matches and no other, and leaves a
  -- valid cache.
  pub remove_all_match-Removed :
      (match : ℕ → Bool) (c : Cache)
      → IsValid size_of c
      → IsValid size_of (remove_all_match size_of key_of match c).1
        × ((i : ℕ)
            → count i (remove_all_match size_of key_of match c).1.sorted_items
              ≡ (if match i then 0 else count i c.sorted_items))
  unfolding remove_all_match
  remove_all_match-Removed match c v =
      let (valid, left) =
        remove_loop-IsValid size_of key_of match c.sorted_items c v (λ i. omega arith) in
      (valid, λ i. ground (arith, left i))

module _ (size_of key_of : ℕ → ℕ) (find : List ℕ → ℕ → Option ℕ) (h : HashSet) where
  -- One call of an operation, or a lease that is taken or ends. A new item has no lease, and only an
  -- item that is not destroyed gets one.
  pub data Change : Cache → Cache → Type 0 where
    adds :
        (c : Cache) (item : ℕ)
        → IsNew c item
        → c.leased item ≡ false
        → Change c (add size_of key_of c item).1
    puts :
        (c : Cache) (item : ℕ)
        → IsNew c item
        → c.leased item ≡ false
        → Change c (put size_of key_of find c item).1
    gets :
        (validate : ℕ → Bool) (c : Cache) (key : ℕ)
        → Change c (get size_of key_of find validate c key).1
    gets_match :
        (validate match : ℕ → Bool) (c : Cache) (key : ℕ)
        → Change c (get_match size_of key_of h validate match c key).1
    puts_match :
        (validate match : ℕ → Bool) (c : Cache) (item : ℕ)
        → IsNew c item
        → c.leased item ≡ false
        → Change c (put_match size_of key_of h validate match c item).1
    removes_key : (c : Cache) (key : ℕ) → Change c (remove_key size_of key_of h c key)
    removes_key_if :
        (pred : ℕ → Bool) (c : Cache) (key : ℕ)
        → Change c (remove_key_if size_of key_of h pred c key)
    flushes : (c : Cache) → Change c (flush size_of key_of h c)
    removes : (c : Cache) (item : ℕ) → Change c (remove size_of key_of c item)
    removes_all :
        (match : ℕ → Bool) (c : Cache) → Change c (remove_all_match size_of key_of match c).1
    expires :
        (until : ℕ → ℕ) (now : ℕ) (c : Cache)
        → Change c (expire_callback size_of key_of until now c).1
    leases : (c : Cache) (item : ℕ) → count item c.destroyed ≡ 0 → Change c (lease c item)
    abandons : (c : Cache) (item : ℕ) → c.leased item ≡ true → Change c (on_abandoned c item)

  pub data Changes : Cache → Cache → Type 0 where
    done : (c : Cache) → Changes c c
    more : (c d e : Cache) → Changes c d → Change d e → Changes c e

  module _ (finder : IsFinder key_of find) (laws : IsHashSet key_of h) where
    Change-IsValid : (c d : Cache) → IsValid size_of c → Change c d → IsValid size_of d
    unfolding expire_callback remove_key remove_key_if
    Change-IsValid c d v (adds _ item new off) = add-IsValid size_of key_of c item v new off
    Change-IsValid c d v (puts _ item new off) =
        put-IsValid size_of key_of find finder c item v new off
    Change-IsValid c d v (gets validate _ key) =
        get-IsValid size_of key_of validate find c key finder v
    Change-IsValid c d v (gets_match validate match _ key) =
        (get_match-IsValid size_of key_of h laws validate match c key v).0
    Change-IsValid c d v (puts_match validate match _ item new off) =
        put_match-IsValid size_of key_of h laws validate match c item v new off
    Change-IsValid c d v (removes_key _ key) =
        (remove_key_if-Removed size_of key_of h laws (λ i. true) c key v).0
    Change-IsValid c d v (removes_key_if pred _ key) =
        (remove_key_if-Removed size_of key_of h laws pred c key v).0
    Change-IsValid c d v (flushes _) = (flush-Removed size_of key_of h laws c v).0
    Change-IsValid c d v (removes _ item) = remove-IsValid size_of key_of c item v
    Change-IsValid c d v (removes_all match _) =
        (remove_all_match-Removed size_of key_of match c v).0
    Change-IsValid c d v (expires until now _) =
        (remove_loop-IsValid size_of key_of _ c.sorted_items c v (λ i. omega arith)).0
    Change-IsValid c d v (leases _ item h) = lease-IsValid size_of key_of c item v h
    Change-IsValid c d v (abandons _ item on) = on_abandoned-IsValid size_of key_of c item v on

    new-IsValid :
        (max_size : ℕ) → max_size + max_size < size_mod → IsValid size_of (Cache.new max_size)
    unfolding count sum_of
    new-IsValid max_size small = record {
      same = λ i. refl;
      once = λ i. omega arith;
      summed = refl;
      limited = omega arith;
      alive = λ i on. refl;
      timed = λ some_size. absurd (omega arith);
      small = small;
    }

    -- With a hash set whose `find` returns an item that it holds and that has the key, and that finds
    -- with a condition, removes by key and is cleared as documented (`IsHashSet`), and a limit
    -- below half of a size_t's range: whatever is called on a new cache, in any order, and
    -- whenever leases are taken and end, the set and the list hold the same items, each once; the
    -- size is the sum of theirs and within the limit; no item is destroyed twice, or while the
    -- cache holds it or while it has a lease; and the timer runs if the cache has a size.
    pub reached-IsValid :
        (max_size : ℕ) (c : Cache)
        → max_size + max_size < size_mod
        → Changes (Cache.new max_size) c
        → IsValid size_of c
    reached-IsValid max_size c small changes =
        go (Cache.new max_size) c (new-IsValid max_size small) changes
      where
        go : (c d : Cache) → IsValid size_of c → Changes c d → IsValid size_of d
        go c d v (done _) = v
        go c d v (more _ e _ before step) = Change-IsValid e d (go c e v before) step
