-- ===== src/Cache/Room.antt =====
-- `NeedRoom` of src/cache/Cache.cxx, and the operations that put a new item into the cache.
use cm4all_beng_proxy.Common.{
  ℕ, zero, suc, ◌+◌, ◌%◌, ◌≤◌, ◌<◌, ◌≡◌, refl, sym, ap, ◌∙◌, false, none, some, inl, inr, List, [],
  ◌∷◌, ◌++◌, length, drop, ltb, leb, arith, Bool-cases, ==_refl, erase, count, count-append, sum_of,
}
use native.Mathlib.Nat.{mod-eq_of_lt}
use cm4all_beng_proxy.Cache.{
  Cache, size_mod, destroy, release, item_removed, remove_item, oldest, destroy_oldest_item,
  room_loop, need_room,
}
use cm4all_beng_proxy.Cache.Valid.{IsValid, remove_item-IsValid}

-- An item that is neither in the cache nor destroyed.
abbrev pub IsNew : Cache → ℕ → Type 0
IsNew c item = count item c.sorted_items + count item c.destroyed ≡ 0

module _ (size_of key_of : ℕ → ℕ) where
  -- `k` items at the front of the list, those that were not used for the longest time, have been
  -- removed, and none but to make room for `n`.
  pub record IsEvicted (n : ℕ) (c c' : Cache) : Type 0 where
    pub k : ℕ
    pub sorted : c'.sorted_items ≡ drop k c.sorted_items
    pub needed : (j : ℕ) → j < k → c.max_size < sum_of size_of (drop j c.sorted_items) + n
    pub room : c'.size + n ≤ c.max_size
    pub valid : IsValid size_of c'
    pub rest : (c'.max_size ≡ c.max_size) × (c'.leased ≡ c.leased)
    pub still_new : (i : ℕ) → IsNew c i → IsNew c' i

  erase_first : (x : ℕ) (xs : List ℕ) → erase x (x ∷ xs) ≡ xs
  unfolding erase
  erase_first x xs = rw (==_refl x) refl

  count_first : (x : ℕ) (xs : List ℕ) → 0 < count x (x ∷ xs)
  unfolding count
  count_first x xs = rw (==_refl x) (omega arith)

  removed_fields :
      (c : Cache) (x : ℕ) (xs : List ℕ)
      → c.sorted_items ≡ x ∷ xs
      → ((remove_item size_of key_of c x).sorted_items ≡ xs)
        × ((remove_item size_of key_of c x).max_size ≡ c.max_size)
        × ((remove_item size_of key_of c x).leased ≡ c.leased)
        × ((i : ℕ) → IsNew c i → IsNew (remove_item size_of key_of c x) i)
  unfolding remove_item item_removed release destroy count
  removed_fields c x xs e = elim (Bool-cases (c.leased x)) [
    | inl on ↦ rw (on, e, erase_first x xs) (refl, refl, refl, λ i new. still i new)
    | inr off ↦ rw (off, e, erase_first x xs) (refl, refl, refl, λ i new. still' i new)
  ]
    where
      still :
          (i : ℕ)
          → count i (x ∷ xs) + count i c.destroyed ≡ 0
          → count i xs + count i c.destroyed ≡ 0
      still i new = ground (arith)

      still' :
          (i : ℕ)
          → count i (x ∷ xs) + count i c.destroyed ≡ 0
          → count i xs + count i (c.destroyed ++ x ∷ []) ≡ 0
      still' i new = ground (arith, count-append i c.destroyed x)

  first_of :
      (c : Cache) (n : ℕ)
      → IsValid size_of c
      → n ≤ c.max_size
      → c.max_size < c.size + n
      → (x : ℕ) × (xs : List ℕ) × (c.sorted_items ≡ x ∷ xs)
  unfolding sum_of
  first_of c n v le lt = go c.sorted_items refl
    where
      go : (ws : List ℕ) → c.sorted_items ≡ ws → (x : ℕ) × (xs : List ℕ) × (c.sorted_items ≡ x ∷ xs)
      go [] e = absurd (omega (arith, v.summed, ap (sum_of size_of) e))
      go (x ∷ xs) e = (x, xs, e)

  more-IsEvicted :
      (n : ℕ) (c c' : Cache) (x : ℕ) (xs : List ℕ)
      → IsValid size_of c
      → c.sorted_items ≡ x ∷ xs
      → c.max_size < c.size + n
      → IsEvicted n (remove_item size_of key_of c x) c'
      → IsEvicted n c c'
  more-IsEvicted n c c' x xs v e lt b =
      let (sorted', max', leased', new') = removed_fields c x xs e in
      record {
        k = suc b.k;
        sorted = b.sorted ∙ ap (drop b.k) sorted' ∙ ap (drop (suc b.k)) (sym e);
        needed = needed' sorted' max';
        room = omega (arith, b.room, max');
        valid = b.valid;
        rest = (b.rest.0 ∙ max', b.rest.1 ∙ leased');
        still_new = λ i new. b.still_new i (new' i new);
      }
    where
      needed' :
          (remove_item size_of key_of c x).sorted_items ≡ xs
          → (remove_item size_of key_of c x).max_size ≡ c.max_size
          → (j : ℕ) → j < suc b.k
          → c.max_size < sum_of size_of (drop j c.sorted_items) + n
      needed' s m zero h = omega (arith, lt, v.summed)
      needed' s m (suc j) h = omega (
        arith,
        b.needed j (omega arith),
        m,
        ap (λ ws. sum_of size_of (drop j ws)) s,
        ap (λ ws. sum_of size_of (drop (suc j) ws)) e,
      )

  room_loop-IsEvicted :
      (n fuel : ℕ) (c : Cache)
      → IsValid size_of c
      → n ≤ c.max_size
      → length c.sorted_items < fuel
      → (c' : Cache) × (room_loop size_of key_of n fuel c ≡ some c') × IsEvicted n c c'
  unfolding room_loop destroy_oldest_item oldest
  room_loop-IsEvicted n zero c v le lt = absurd (omega arith)
  room_loop-IsEvicted n (suc fuel) c v le lt =
      let same : (c.size + n) % size_mod ≡ c.size + n =
        mod-eq_of_lt (omega (arith, v.small, v.limited)) in
      elim (Bool-cases (leb (c.size + n) c.max_size)) [
        | inl fits ↦
            rw (same, fits)
              (
                c,
                refl,
                record {
                  k = 0;
                  sorted = refl;
                  needed = λ j h. absurd (omega arith);
                  room = ground arith;
                  valid = v;
                  rest = (refl, refl);
                  still_new = λ i h. h;
                },
              )
        | inr full ↦
            rw (same, full)
              (evicted (first_of c n v le (ground arith)) (ground arith)
                (room_loop-IsEvicted n fuel))
      ]
    where
      evicted :
          (x : ℕ) × (xs : List ℕ) × (c.sorted_items ≡ x ∷ xs)
          → c.max_size < c.size + n
          → ((d : Cache)
              → IsValid size_of d
              → n ≤ d.max_size
              → length d.sorted_items < fuel
              → (c' : Cache) × (room_loop size_of key_of n fuel d ≡ some c') × IsEvicted n d c')
          → (c' : Cache) × (room_loop size_of key_of n fuel (oldest size_of key_of c c.sorted_items)
              ≡ some c')
            × IsEvicted n c c'
      evicted (x, xs, e) big ih =
          let (sorted', max', leased', new') = removed_fields c x xs e in
          let first : 0 < count x c.sorted_items = rw e (count_first x xs) in
          let (c', found, b) =
            ih (remove_item size_of key_of c x) (remove_item-IsValid size_of key_of c x v first)
              (omega (arith, max')) (omega (arith, ap length sorted', ap length e, lt)) in
          (
            c',
            ap (λ ws. room_loop size_of key_of n fuel (oldest size_of key_of c ws)) e ∙ found,
            more-IsEvicted n c c' x xs v e big b,
          )

  -- On a valid cache, `NeedRoom` comes to an end. It refuses exactly the sizes above the limit;
  -- else it removes the items at the front of the list, those that were not used for the longest
  -- time, one by one, and none once there is room, and leaves a valid cache.
  pub need_room-IsEvicted :
      (c : Cache) (n : ℕ)
      → IsValid size_of c
      → (c.max_size < n → need_room size_of key_of c n ≡ none)
        × (n ≤ c.max_size
            → (c' : Cache) × (need_room size_of key_of c n ≡ some c') × IsEvicted n c c')
  unfolding need_room
  need_room-IsEvicted c n v = (
    λ big. ground arith,
    λ fits.
        let (c', found, b) =
          room_loop-IsEvicted n (suc (length c.sorted_items)) c v fits (omega arith) in
        let small : ltb c.max_size n ≡ false = ground arith in (c', rw small found, b),
  )
