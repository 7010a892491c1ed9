-- ===== src/Cache/Valid.antt =====
-- The invariant of src/cache/Cache.cxx.
use cm4all_beng_proxy.Common.{
  ℕ, ◌+◌, ◌-◌, ◌≤◌, ◌<◌, ◌≡◌, ◌⊎◌, refl, ap, ◌∙◌, true, false, inl, inr, List, [], ◌∷◌, ◌++◌, ◌==◌,
  if◌then◌else◌, arith, Bool-cases, ==_iff, erase, count, count-append, count-erase, sum_of,
  sum_of-append, sum_of-erase,
}
use cm4all_beng_proxy.Cache.{
  Cache, size_mod, contains, destroy, release, refresh_item, item_removed, remove_item, insert,
}

pub contains_iff : (item : ℕ) (is : List ℕ) → (contains item is ≡ true) ⊎ (count item is ≡ 0)
unfolding contains count
contains_iff item [] = inr refl
contains_iff item (i ∷ is) = ground (arith, contains_iff item is)

pub contains-count : (item : ℕ) (is : List ℕ) → contains item is ≡ true → 0 < count item is
unfolding contains count
contains-count item [] h = absurd (ground arith)
contains-count item (i ∷ is) h = ground (arith, contains-count item is)

-- The set and the list hold the same items, each once; `size` is the sum of their sizes and within
-- the limit; Destroy() is called on an item at most once, and on none that the cache holds or that
-- has a lease; and the timer runs if the cache has a size. The limit leaves room for a sum of two
-- sizes in a size_t.
pub record IsValid (size_of : ℕ → ℕ) (c : Cache) : Type 0 where
  pub same : (i : ℕ) → count i c.items ≡ count i c.sorted_items
  pub once : (i : ℕ) → count i c.sorted_items + count i c.destroyed ≤ 1
  pub summed : c.size ≡ sum_of size_of c.sorted_items
  pub limited : c.size ≤ c.max_size
  pub alive : (i : ℕ) → c.leased i ≡ true → count i c.destroyed ≡ 0
  pub timed : 0 < c.size → c.cleanup_timer ≡ true
  pub small : c.max_size + c.max_size < size_mod

module _ (size_of key_of : ℕ → ℕ) where
  pub refresh_item-IsValid :
      (c : Cache) (item : ℕ)
      → IsValid size_of c
      → 0 < count item c.sorted_items
      → IsValid size_of (refresh_item c item)
  unfolding refresh_item
  refresh_item-IsValid c item v h = record {
    same = λ i. v.same i ∙ moved i;
    once = λ i. omega (arith, v.once i, moved i);
    summed = omega (
      arith,
      v.summed,
      sum_of-erase size_of c.sorted_items item h,
      sum_of-append size_of (erase item c.sorted_items) item,
    );
    limited = v.limited;
    alive = v.alive;
    timed = v.timed;
    small = v.small;
  }
    where
      moved : (i : ℕ) → count i c.sorted_items ≡ count i (erase item c.sorted_items ++ item ∷ [])
      moved i = elim (Bool-cases (i == item)) [
        | inl e ↦
            let is : i ≡ item = (==_iff i item).0 e in
            ground (
              arith,
              count-append i (erase item c.sorted_items) item,
              count-erase i c.sorted_items item,
              ap (λ k. count k c.sorted_items) is,
            )
        | inr e ↦ ground (
          arith,
          count-append i (erase item c.sorted_items) item,
          count-erase i c.sorted_items item,
        )
      ]

  pub remove_item-IsValid :
      (c : Cache) (item : ℕ)
      → IsValid size_of c
      → 0 < count item c.sorted_items
      → IsValid size_of (remove_item size_of key_of c item)
  unfolding remove_item item_removed release destroy
  remove_item-IsValid c item v h = elim (Bool-cases (c.leased item)) [
    | inl on ↦ rw on (record {
      same = same';
      once = λ i. omega (arith, v.once i, fewer i);
      summed = summed';
      limited = omega (arith, v.limited);
      alive = v.alive;
      timed = λ some_size. timed' some_size;
      small = v.small;
    })
    | inr off ↦ rw off (record {
      same = same';
      once = λ i. gone i;
      summed = summed';
      limited = omega (arith, v.limited);
      alive = λ i on. not_gone off i on;
      timed = λ some_size. timed' some_size;
      small = v.small;
    })
  ]
    where
      fewer : (i : ℕ) → count i (erase item c.sorted_items) ≤ count i c.sorted_items
      fewer i = ground (arith, count-erase i c.sorted_items item)

      same' : (i : ℕ) → count i (erase item c.items) ≡ count i (erase item c.sorted_items)
      same' i =
          ground (arith, count-erase i c.items item, count-erase i c.sorted_items item, v.same i)

      summed' : c.size - size_of item ≡ sum_of size_of (erase item c.sorted_items)
      summed' = omega (arith, v.summed, sum_of-erase size_of c.sorted_items item h)

      timed' :
          0 < c.size - size_of item
          → (if (c.size - size_of item) == 0 then false else c.cleanup_timer) ≡ true
      timed' some_size = ground (arith, v.timed)

      gone : (i : ℕ) → count i (erase item c.sorted_items) + count i (c.destroyed ++ item ∷ []) ≤ 1
      gone i = elim (Bool-cases (i == item)) [
        | inl e ↦
            let is : i ≡ item = (==_iff i item).0 e in
            ground (
              arith,
              count-append i c.destroyed item,
              count-erase i c.sorted_items item,
              v.once i,
              ap (λ k. count k c.sorted_items) is,
            )
        | inr e ↦
            ground
              (arith, count-append i c.destroyed item, count-erase i c.sorted_items item, v.once i)
      ]

      not_gone :
          c.leased item ≡ false
          → (i : ℕ) → c.leased i ≡ true
          → count i (c.destroyed ++ item ∷ []) ≡ 0
      not_gone off i on = elim (Bool-cases (i == item)) [
        | inl e ↦ let is : i ≡ item = (==_iff i item).0 e in absurd (ground (arith, ap c.leased is))
        | inr e ↦ ground (arith, count-append i c.destroyed item, v.alive i on)
      ]

  -- the item is new, and there is room
  pub insert-IsValid :
      (c : Cache) (item : ℕ)
      → IsValid size_of c
      → count item c.sorted_items + count item c.destroyed ≡ 0
      → c.size + size_of item ≤ c.max_size
      → IsValid size_of (insert size_of key_of c item)
  unfolding insert
  insert-IsValid c item v new room = record {
    same = λ i.
        ground (arith, count-append i c.items item, count-append i c.sorted_items item, v.same i);
    once = λ i. fresh i;
    summed = omega (arith, v.summed, sum_of-append size_of c.sorted_items item);
    limited = room;
    alive = v.alive;
    timed = λ some_size. refl;
    small = v.small;
  }
    where
      fresh : (i : ℕ) → count i (c.sorted_items ++ item ∷ []) + count i c.destroyed ≤ 1
      fresh i = elim (Bool-cases (i == item)) [
        | inl e ↦
            let is : i ≡ item = (==_iff i item).0 e in
            ground (
              arith,
              count-append i c.sorted_items item,
              new,
              ap (λ k. count k c.sorted_items) is,
              ap (λ k. count k c.destroyed) is,
            )
        | inr e ↦ ground (arith, count-append i c.sorted_items item, v.once i)
      ]

  -- an item that the cache does not hold, and that has no lease, is destroyed
  pub destroy-IsValid :
      (c : Cache) (item : ℕ)
      → IsValid size_of c
      → count item c.sorted_items + count item c.destroyed ≡ 0
      → c.leased item ≡ false
      → IsValid size_of (destroy c item)
  unfolding destroy
  destroy-IsValid c item v out off = record {
    same = v.same;
    once = λ i. once' i;
    summed = v.summed;
    limited = v.limited;
    alive = λ i on. alive' i on;
    timed = v.timed;
    small = v.small;
  }
    where
      once' : (i : ℕ) → count i c.sorted_items + count i (c.destroyed ++ item ∷ []) ≤ 1
      once' i = elim (Bool-cases (i == item)) [
        | inl e ↦
            let is : i ≡ item = (==_iff i item).0 e in
            ground (
              arith,
              count-append i c.destroyed item,
              out,
              ap (λ k. count k c.sorted_items) is,
              ap (λ k. count k c.destroyed) is,
            )
        | inr e ↦ ground (arith, count-append i c.destroyed item, v.once i)
      ]

      alive' : (i : ℕ) → c.leased i ≡ true → count i (c.destroyed ++ item ∷ []) ≡ 0
      alive' i on = elim (Bool-cases (i == item)) [
        | inl e ↦ let is : i ≡ item = (==_iff i item).0 e in absurd (ground (arith, ap c.leased is))
        | inr e ↦ ground (arith, count-append i c.destroyed item, v.alive i on)
      ]
