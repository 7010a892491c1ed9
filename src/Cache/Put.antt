-- ===== src/Cache/Put.antt =====
-- `Add` and `Put` of src/cache/Cache.cxx.
use cm4all_beng_proxy.Common.{
  ℕ, ◌+◌, ◌≤◌, ◌<◌, ◌≡◌, refl, ap, false, Option, none, some, inl, inr, List, [], ◌∷◌, ◌++◌, ltb,
  ◌==◌, arith, Bool-cases, ==_iff, erase, count, count-append, count-erase,
}
use cm4all_beng_proxy.Cache.{
  Cache, destroy, release, item_removed, remove_item, insert, add_at, add, replace, put_at, put,
}
use cm4all_beng_proxy.Cache.Valid.{IsValid, remove_item-IsValid, insert-IsValid, destroy-IsValid}
use cm4all_beng_proxy.Cache.Room.{IsNew, need_room-IsEvicted}
use cm4all_beng_proxy.Cache.Steps.{IsFinder}

module _ (size_of key_of : ℕ → ℕ) where
  pub add-IsValid :
      (c : Cache) (item : ℕ)
      → IsValid size_of c
      → IsNew c item
      → c.leased item ≡ false
      → IsValid size_of (add size_of key_of c item).1
  unfolding add add_at
  add-IsValid c item v new off = elim (Bool-cases (ltb c.max_size (size_of item))) [
    | inl big ↦
        rw ((need_room-IsEvicted size_of key_of c (size_of item) v).0 (ground arith))
          (destroy-IsValid size_of key_of c item v new off)
    | inr fits ↦
        let (c', found, b) =
          (need_room-IsEvicted size_of key_of c (size_of item) v).1 (ground arith) in
        rw found (
          insert-IsValid size_of key_of c' item b.valid (b.still_new item new)
            (omega (arith, b.room, b.rest.0)))
  ]

  -- Removing one item keeps another one new, and frees its size.
  pub removed-IsNew :
      (c : Cache) (old item : ℕ)
      → 0 < count old c.sorted_items
      → IsNew c item
      → IsNew (remove_item size_of key_of c old) item
        × ((remove_item size_of key_of c old).size ≤ c.size)
        × ((remove_item size_of key_of c old).max_size ≡ c.max_size)
  unfolding remove_item item_removed release destroy
  removed-IsNew c old item held new = elim (Bool-cases (c.leased old)) [
    | inl on ↦ rw on (ground (arith, count-erase item c.sorted_items old), omega arith, refl)
    | inr off ↦ rw off (both, omega arith, refl)
  ]
    where
      both : count item (erase old c.sorted_items) + count item (c.destroyed ++ old ∷ []) ≡ 0
      both = elim (Bool-cases (item == old)) [
        | inl e ↦
            let same : item ≡ old = (==_iff item old).0 e in
            absurd (omega (arith, ap (λ k. count k c.sorted_items) same))
        | inr e ↦
            ground (arith, count-erase item c.sorted_items old, count-append item c.destroyed old)
      ]

  module _ (find : List ℕ → ℕ → Option ℕ) (finder : IsFinder key_of find) where
    put_some-IsValid :
        (c : Cache) (item : ℕ) (o : Option ℕ)
        → IsValid size_of c
        → find c.items (key_of item) ≡ o
        → IsNew c item
        → c.size + size_of item ≤ c.max_size
        → IsValid size_of (insert size_of key_of (replace size_of key_of find c o) item)
    unfolding replace
    put_some-IsValid c item none v e new room = insert-IsValid size_of key_of c item v new room
    put_some-IsValid c item (some old) v e new room =
        let held : 0 < count old c.sorted_items =
          omega (arith, (finder.found c.items (key_of item) old e).0, v.same old) in
        let (new', smaller, max') = removed-IsNew c old item held new in
        insert-IsValid size_of key_of (remove_item size_of key_of c old) item
          (remove_item-IsValid size_of key_of c old v held) new'
          (omega (arith, smaller, max', room))

    pub put-IsValid :
        (c : Cache) (item : ℕ)
        → IsValid size_of c
        → IsNew c item
        → c.leased item ≡ false
        → IsValid size_of (put size_of key_of find c item).1
    unfolding put put_at
    put-IsValid c item v new off = elim (Bool-cases (ltb c.max_size (size_of item))) [
      | inl big ↦
          rw ((need_room-IsEvicted size_of key_of c (size_of item) v).0 (ground arith))
            (destroy-IsValid size_of key_of c item v new off)
      | inr fits ↦
          let (c', found, b) =
            (need_room-IsEvicted size_of key_of c (size_of item) v).1 (ground arith) in
          rw found (
            put_some-IsValid c' item (find c'.items (key_of item)) b.valid refl
              (b.still_new item new) (omega (arith, b.room, b.rest.0)))
    ]
