-- ===== src/Cache/Matched.antt =====
-- The invariant of src/cache/Cache.cxx under the operations that follow the hash set.
use cm4all_beng_proxy.Common.{
  ℕ, ◌-◌, ◌≤◌, ◌<◌, ◌≡◌, refl, ap, Bool, true, false, not, Option, none, some, inl, inr, List, [],
  ◌∷◌, ◌&&◌, ◌==◌, if◌then◌else◌, arith, Bool-cases, ==_iff, ==_refl, All, count, erase,
  count-append, count-erase,
}
use cm4all_beng_proxy.Cache.{
  Cache, refresh_item, remove_item, remove_loop, release, item_removed, destroy,
}
use cm4all_beng_proxy.Cache.Valid.{IsValid, refresh_item-IsValid, remove_item-IsValid}
use cm4all_beng_proxy.Cache.Room.{IsNew}
use cm4all_beng_proxy.Cache.Steps.{remove_loop-IsValid, removed-count}
use cm4all_beng_proxy.Cache.Put.{removed-IsNew, add-IsValid}
use cm4all_beng_proxy.Cache.Match.{
  HashSet, IsHashSet, dispose, refresh_found, get_match, remove_old, put_match, remove_key_if,
  flush,
}

-- An item with another value of a test is not among those with that value.
count-All :
    (f : ℕ → Bool) (is : List ℕ) (item : ℕ)
    → All (λ i. f i ≡ true) is
    → f item ≡ false
    → count item is ≡ 0
unfolding count
count-All f [] item a e = refl
count-All f (x ∷ is) item (p, a) e = elim (Bool-cases (item == x)) [
  | inl s ↦ let same : item ≡ x = (==_iff item x).0 s in absurd (ground (arith, ap f same))
  | inr n ↦ rw n (count-All f is item a e)
]

module _ (size_of key_of : ℕ → ℕ) where
  -- What becomes of an item that the cache does not hold, and of one that it does.
  pub record IsKept (c c' : Cache) : Type 0 where
    pub still_new : (i : ℕ) → IsNew c i → IsNew c' i
    pub still_off : (i : ℕ) → c.leased i ≡ false → c'.leased i ≡ false

  remove_item-IsKept :
      (c : Cache) (old : ℕ)
      → 0 < count old c.sorted_items
      → IsKept c (remove_item size_of key_of c old)
  unfolding remove_item item_removed release destroy
  remove_item-IsKept c old held = record {
    still_new = λ i new. (removed-IsNew size_of key_of c old i held new).0;
    still_off = λ i off. same i off;
  }
    where
      same : (i : ℕ) → c.leased i ≡ false → (remove_item size_of key_of c old).leased i ≡ false
      same i off = elim (Bool-cases (c.leased old)) [ inl e ↦ rw e off | inr e ↦ rw e off ]

  disposed-IsKept :
      (is : List ℕ) (c : Cache)
      → IsValid size_of c
      → ((i : ℕ) → count i is ≤ count i c.sorted_items)
      → IsKept c (remove_loop size_of key_of (λ i. true) is c).1
  unfolding remove_loop count
  disposed-IsKept [] c v h = record { still_new = λ i new. new; still_off = λ i off. off }
  disposed-IsKept (x ∷ is) c v h =
      let held : 0 < count x c.sorted_items = ground (arith, h x, ==_refl x) in
      let first = remove_item-IsKept c x held in
      let rest =
        disposed-IsKept is (remove_item size_of key_of c x)
          (remove_item-IsValid size_of key_of c x v held)
          (λ i. ground (arith, h i, removed-count size_of key_of c x i)) in
      record {
        still_new = λ i new. rest.still_new i (first.still_new i new);
        still_off = λ i off. rest.still_off i (first.still_off i off);
      }

  dispose-IsValid :
      (is : List ℕ) (c : Cache)
      → IsValid size_of c
      → ((i : ℕ) → count i is ≤ count i c.sorted_items)
      → IsValid size_of (dispose size_of key_of is c)
        × ((i : ℕ)
            → count i (dispose size_of key_of is c).sorted_items
              ≡ count i c.sorted_items - count i is)
        × IsKept c (dispose size_of key_of is c)
  unfolding dispose
  dispose-IsValid is c v h =
      let (valid, left) = remove_loop-IsValid size_of key_of (λ i. true) is c v h in
      (valid, left, disposed-IsKept is c v h)

  refresh_count :
      (c : Cache) (item i : ℕ)
      → 0 < count item c.sorted_items
      → count i (refresh_item c item).sorted_items ≡ count i c.sorted_items
  unfolding refresh_item
  refresh_count c item i held = elim (Bool-cases (i == item)) [
    | inl e ↦
        let same : i ≡ item = (==_iff i item).0 e in
        ground (
          arith,
          count-append i (erase item c.sorted_items) item,
          count-erase i c.sorted_items item,
          ap (λ k. count k c.sorted_items) same,
        )
    | inr e ↦
        ground (
          arith,
          count-append i (erase item c.sorted_items) item,
          count-erase i c.sorted_items item,
        )
  ]

  module _ (h : HashSet) (laws : IsHashSet key_of h) where
    -- The item that is found is still held when it is refreshed.
    get_found-IsValid :
        (c : Cache) (o : Option ℕ)
        → IsValid size_of c
        → ((i : ℕ) → o ≡ some i → 0 < count i c.sorted_items)
        → IsValid size_of (refresh_found o c)
          × IsKept c (refresh_found o c)
          × ((i : ℕ) → o ≡ some i → 0 < count i (refresh_found o c).sorted_items)
    unfolding refresh_found refresh_item
    get_found-IsValid c none v held =
        (v, record { still_new = λ i new. new; still_off = λ i off. off }, λ i e. held i e)
    get_found-IsValid c (some item) v held = (
      refresh_item-IsValid size_of key_of c item v (held item refl),
      record {
        still_new = λ i new. omega (arith, new, refresh_count c item i (held item refl));
        still_off = λ i off. off;
      },
      λ i e. omega (arith, held i e, refresh_count c item i (held item refl)),
    )

    pub get_match-IsValid :
        (validate match : ℕ → Bool) (c : Cache) (key : ℕ)
        → IsValid size_of c
        → let r = get_match size_of key_of h validate match c key in
          IsValid size_of r.1
          × IsKept c r.1
          × ((i : ℕ) → r.0 ≡ some i → 0 < count i r.1.sorted_items)
    unfolding get_match
    get_match-IsValid validate match c key v =
        let expired = λ (i : ℕ). not (validate i) in
        let found = h.expire_find_if c.items key expired match in
        let (v1, left, kept1) =
          dispose-IsValid found.0 c v
            (λ i. omega (arith, laws.fewer c.items key expired match i, v.same i)) in
        let (v2, kept2, held) =
          get_found-IsValid (dispose size_of key_of found.0 c) found.1 v1 (λ i e.
            let (there, k, m, fresh) = laws.found c.items key expired match i e in
            omega (
              arith,
              there,
              v.same i,
              left i,
              count-All expired found.0 i (laws.disposed c.items key expired match) fresh,
            )) in
        (
          v2,
          record {
            still_new = λ i new. kept2.still_new i (kept1.still_new i new);
            still_off = λ i off. kept2.still_off i (kept1.still_off i off);
          },
          held,
        )

    pub put_match-IsValid :
        (validate match : ℕ → Bool) (c : Cache) (item : ℕ)
        → IsValid size_of c
        → IsNew c item
        → c.leased item ≡ false
        → IsValid size_of (put_match size_of key_of h validate match c item).1
    unfolding put_match
    put_match-IsValid validate match c item v new off =
        let r = get_match size_of key_of h validate match c (key_of item) in
        let (v1, kept1, held) = get_match-IsValid validate match c (key_of item) v in
        let (v2, kept2) = old_removed r.0 r.1 v1 held in
        add-IsValid size_of key_of (remove_old size_of key_of r.0 r.1) item v2
          (kept2.still_new item (kept1.still_new item new))
          (kept2.still_off item (kept1.still_off item off))
      where
        old_removed :
            (o : Option ℕ) (c : Cache)
            → IsValid size_of c
            → ((i : ℕ) → o ≡ some i → 0 < count i c.sorted_items)
            → IsValid size_of (remove_old size_of key_of o c)
              × IsKept c (remove_old size_of key_of o c)
        old_removed none c v held =
            (v, record { still_new = λ i new. new; still_off = λ i off. off })
        old_removed (some old) c v held = (
          remove_item-IsValid size_of key_of c old v (held old refl),
          remove_item-IsKept c old (held old refl),
        )

    -- The items of the key that match are removed, and no others.
    pub remove_key_if-Removed :
        (pred : ℕ → Bool) (c : Cache) (key : ℕ)
        → IsValid size_of c
        → IsValid size_of (remove_key_if size_of key_of h pred c key)
          × ((i : ℕ)
              → count i (remove_key_if size_of key_of h pred c key).sorted_items
                ≡ (if (key_of i == key) && pred i then 0 else count i c.sorted_items))
    unfolding remove_key_if
    remove_key_if-Removed pred c key v =
        let (valid, left, kept) =
          dispose-IsValid (h.matching_key c.items key pred) c v
            (λ i. ground (arith, laws.matching c.items key pred i, v.same i)) in
        (valid, λ i. ground (arith, left i, laws.matching c.items key pred i, v.same i))

    -- Nothing is left.
    pub flush-Removed :
        (c : Cache)
        → IsValid size_of c
        → IsValid size_of (flush size_of key_of h c)
          × ((i : ℕ) → count i (flush size_of key_of h c).sorted_items ≡ 0)
    unfolding flush
    flush-Removed c v =
        let (valid, left, kept) =
          dispose-IsValid (h.all_items c.items) c v
            (λ i. omega (arith, laws.all c.items i, v.same i)) in
        (valid, λ i. omega (arith, left i, laws.all c.items i, v.same i))
