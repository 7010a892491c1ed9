-- ===== src/Cache/Steps.antt =====
-- The operations of src/cache/Cache.cxx in any order.
use cm4all_beng_proxy.Common.{
  ℕ, ◌-◌, ◌≤◌, ◌<◌, ◌≡◌, refl, ap, ◌∙◌, Bool, true, false, Option, none, some, inl, inr, List, [],
  ◌∷◌, ◌==◌, if◌then◌else◌, arith, Bool-cases, ==_iff, ==_refl, count, count-erase,
}
use cm4all_beng_proxy.Cache.{
  Cache, contains, destroy, release, on_abandoned, item_removed, remove_item, remove, remove_loop,
  get_found, get,
}
use cm4all_beng_proxy.Cache.Valid.{
  IsValid, contains_iff, contains-count, refresh_item-IsValid, remove_item-IsValid, destroy-IsValid,
}

-- What is relied on of the hash set: `find` returns an item that it holds, with the key.
pub record IsFinder (key_of : ℕ → ℕ) (find : List ℕ → ℕ → Option ℕ) : Type 0 where
  pub found :
      (is : List ℕ) (key item : ℕ)
      → find is key ≡ some item
      → (0 < count item is) × (key_of item ≡ key)

unfoldable pub lease : Cache → ℕ → Cache
lease c item = record c { leased = λ i. if i == item then true else c.leased i }

module _ (size_of key_of : ℕ → ℕ) where
  pub remove-IsValid :
      (c : Cache) (item : ℕ) → IsValid size_of c → IsValid size_of (remove size_of key_of c item)
  unfolding remove
  remove-IsValid c item v = go (contains item c.sorted_items) refl
    where
      go :
          (b : Bool)
          → contains item c.sorted_items ≡ b
          → IsValid size_of (if b then remove_item size_of key_of c item else c)
      go true e = remove_item-IsValid size_of key_of c item v (contains-count item c.sorted_items e)
      go false e = v

  pub removed-count :
      (c : Cache) (item i : ℕ)
      → count i (remove_item size_of key_of c item).sorted_items
        ≡ count i c.sorted_items - (if i == item then 1 else 0)
  unfolding remove_item item_removed release destroy
  removed-count c item i = elim (Bool-cases (c.leased item)) [
    | inl on ↦ rw on (count-erase i c.sorted_items item)
    | inr off ↦ rw off (count-erase i c.sorted_items item)
  ]

  -- items that the list has are removed if they match
  pub remove_loop-IsValid :
      (match : ℕ → Bool) (is : List ℕ) (c : Cache)
      → IsValid size_of c
      → ((i : ℕ) → count i is ≤ count i c.sorted_items)
      → IsValid size_of (remove_loop size_of key_of match is c).1
        × ((i : ℕ)
            → count i (remove_loop size_of key_of match is c).1.sorted_items
              ≡ count i c.sorted_items - (if match i then count i is else 0))
  unfolding remove_loop count
  remove_loop-IsValid match [] c v h = (v, λ i. ground arith)
  remove_loop-IsValid match (x ∷ is) c v h = elim (Bool-cases (match x)) [
    | inl on ↦
        let first : 0 < count x c.sorted_items = ground (arith, h x, ==_refl x) in
        let r =
          remove_loop-IsValid match is (remove_item size_of key_of c x)
            (remove_item-IsValid size_of key_of c x v first)
            (λ i. ground (arith, h i, removed-count c x i)) in
        rw on (r.0, λ i. r.1 i ∙ (rw (removed-count c x i) (matched on i)))
    | inr off ↦
        let r = remove_loop-IsValid match is c v (λ i. ground (arith, h i)) in
        rw off (r.0, λ i. r.1 i ∙ unmatched off i)
  ]
    where
      matched :
          match x ≡ true
          → (i : ℕ)
          → count i c.sorted_items - (if i == x then 1 else 0) - (if match i then count i is else 0)
            ≡ count i c.sorted_items - (if match i then count i (x ∷ is) else 0)
      matched on i = elim (Bool-cases (i == x)) [
        | inl e ↦ let same : i ≡ x = (==_iff i x).0 e in ground (arith, ap match same)
        | inr e ↦ ground arith
      ]

      unmatched :
          match x ≡ false
          → (i : ℕ)
          → count i c.sorted_items - (if match i then count i is else 0)
            ≡ count i c.sorted_items - (if match i then count i (x ∷ is) else 0)
      unmatched off i = elim (Bool-cases (i == x)) [
        | inl e ↦ let same : i ≡ x = (==_iff i x).0 e in ground (arith, ap match same)
        | inr e ↦ ground arith
      ]

  pub lease-IsValid :
      (c : Cache) (item : ℕ)
      → IsValid size_of c
      → count item c.destroyed ≡ 0
      → IsValid size_of (lease c item)
  unfolding lease
  lease-IsValid c item v h = record {
    same = v.same;
    once = v.once;
    summed = v.summed;
    limited = v.limited;
    alive = λ i on. alive' i on;
    timed = v.timed;
    small = v.small;
  }
    where
      alive' : (i : ℕ) → (if i == item then true else c.leased i) ≡ true → count i c.destroyed ≡ 0
      alive' i on = elim (Bool-cases (i == item)) [
        | inl e ↦ ap (λ k. count k c.destroyed) ((==_iff i item).0 e) ∙ h
        | inr e ↦ ground (arith, v.alive i)
      ]

  unleased : Cache → ℕ → Cache
  unleased c item = record c { leased = λ i. if i == item then false else c.leased i }

  unleased-IsValid : (c : Cache) (item : ℕ) → IsValid size_of c → IsValid size_of (unleased c item)
  unfolding unleased
  unleased-IsValid c item v = record {
    same = v.same;
    once = v.once;
    summed = v.summed;
    limited = v.limited;
    alive = λ i on. ground (arith, v.alive i);
    timed = v.timed;
    small = v.small;
  }

  pub on_abandoned-IsValid :
      (c : Cache) (item : ℕ)
      → IsValid size_of c
      → c.leased item ≡ true
      → IsValid size_of (on_abandoned c item)
  unfolding on_abandoned unleased
  on_abandoned-IsValid c item v on = go (contains item c.sorted_items) refl
    where
      go :
          (b : Bool)
          → contains item c.sorted_items ≡ b
          → IsValid size_of (if b then unleased c item else destroy (unleased c item) item)
      go true e = unleased-IsValid c item v
      go false e =
          destroy-IsValid size_of key_of (unleased c item) item (unleased-IsValid c item v)
            (ground (arith, contains_iff item c.sorted_items, v.alive item on))
            (rw (==_refl item) refl)

  pub get-IsValid :
      (validate : ℕ → Bool) (find : List ℕ → ℕ → Option ℕ) (c : Cache) (key : ℕ)
      → IsFinder key_of find
      → IsValid size_of c
      → IsValid size_of (get size_of key_of find validate c key).1
  unfolding get get_found
  get-IsValid validate find c key f v = go (find c.items key) refl
    where
      go :
          (o : Option ℕ)
          → find c.items key ≡ o
          → IsValid size_of (get_found size_of key_of find validate c o).1
      go none e = v
      go (some item) e =
          let held : 0 < count item c.sorted_items =
            omega (arith, (f.found c.items key item e).0, v.same item) in
          elim (Bool-cases (validate item)) [
            | inl on ↦ rw on (refresh_item-IsValid size_of key_of c item v held)
            | inr off ↦ rw off (remove_item-IsValid size_of key_of c item v held)
          ]
