-- ===== src/Cache.antt =====
-- src/cache/Cache.cxx and Item.hxx: a cache of items with a limit on the sum of their sizes, which
-- drops the items that were not used for the longest time. An item is a number, as its address is;
-- `size_of` and `key_of` are its constant fields. The hash set is from libcommon: `items`
-- lists what it holds, and what it finds and disposes is a parameter (`find`, and `HashSet` in Match).
pub mod Valid
pub mod Room
pub mod Steps
pub mod Put
pub mod Match
pub mod Matched
pub mod Reach
use cm4all_beng_proxy.Common.{
  ℕ, erase, zero, suc, ◌+◌, ◌-◌, ◌%◌, ◌^◌, Bool, true, false, Option, none, some, List, [], ◌∷◌,
  ◌++◌, length, ltb, leb, ◌==◌, ◌≡◌, if◌then◌else◌,
}

-- What the CacheHandler is told.
pub data Event : Type 0 where
  added : ℕ → Event
  dropped : ℕ → Event

-- The object, and the items: whether an item has a lease (else it IsAbandoned()), and which items
-- Destroy() has been called on, in order.
pub record Cache : Type 0 where
  pub max_size : ℕ
  pub size : ℕ
  pub items : List ℕ
  pub sorted_items : List ℕ
  pub cleanup_timer : Bool
  pub handler : List Event
  pub leased : ℕ → Bool
  pub destroyed : List ℕ

abbrev pub new : ℕ → Cache
new max_size = record {
  max_size = max_size;
  size = 0;
  items = [];
  sorted_items = [];
  cleanup_timer = false;
  handler = [];
  leased = λ item. false;
  destroyed = [];
}

-- size_t
abbrev pub size_mod : ℕ
size_mod = 2 ^ 64

unfoldable pub contains : ℕ → List ℕ → Bool
contains item [] = false
contains item (i ∷ is) = let rest = contains item is in if item == i then true else rest

unfoldable pub destroy : Cache → ℕ → Cache
destroy c item = record c { destroyed = c.destroyed ++ item ∷ [] }

-- `CacheItem::Release`
unfoldable pub release : Cache → ℕ → Cache
unfolding destroy
release c item = if c.leased item then c else destroy c item

-- `CacheItem::OnAbandoned`, when the last lease is gone; `IsRemoved` is that the item is not in
-- the sorted list.
unfoldable pub on_abandoned : Cache → ℕ → Cache
unfolding destroy contains
on_abandoned c item =
    let c' = record c { leased = λ i. if i == item then false else c.leased i } in
    if contains item c.sorted_items then c' else destroy c' item

unfoldable pub refresh_item : Cache → ℕ → Cache
unfolding erase
refresh_item c item = record c { sorted_items = erase item c.sorted_items ++ item ∷ [] }

module _ (size_of key_of : ℕ → ℕ) where
  unfoldable pub item_removed : Cache → ℕ → Cache
  unfolding release erase
  item_removed c item =
      let c' =
        release
          (record c {
            sorted_items = erase item c.sorted_items;
            size = c.size - size_of item;
            handler = c.handler ++ dropped item ∷ [];
          })
          item in
      record c' { cleanup_timer = if c'.size == 0 then false else c'.cleanup_timer }

  unfoldable pub remove_item : Cache → ℕ → Cache
  unfolding item_removed
  remove_item c item = item_removed (record c { items = erase item c.items }) item

  -- `Remove` of an item, which may have been removed before
  unfoldable pub remove : Cache → ℕ → Cache
  unfolding remove_item contains
  remove c item = if contains item c.sorted_items then remove_item c item else c

  unfoldable pub oldest : Cache → List ℕ → Cache
  unfolding remove_item
  oldest c [] = c
  oldest c (item ∷ is) = remove_item c item

  unfoldable pub destroy_oldest_item : Cache → Cache
  unfolding oldest
  destroy_oldest_item c = oldest c c.sorted_items

  -- The loop of `NeedRoom`; `none` means that the fuel is used up.
  unfoldable pub room_loop : ℕ → ℕ → Cache → Option Cache
  room_loop n zero c = none
  room_loop n (suc fuel) c =
      let later = room_loop n fuel (destroy_oldest_item c) in
      if leb ((c.size + n) % size_mod) c.max_size then some c else later

  -- `some` for true, `none` for false, which leaves the cache as it is. Each round but the last
  -- removes an item.
  unfoldable pub need_room : Cache → ℕ → Option Cache
  unfolding room_loop
  need_room c n =
      let found = room_loop n (suc (length c.sorted_items)) c in
      if ltb c.max_size n then none else found

  -- The new item is put into the set and behind the others in the list.
  unfoldable pub insert : Cache → ℕ → Cache
  insert c item = record c {
    items = c.items ++ item ∷ [];
    sorted_items = c.sorted_items ++ item ∷ [];
    size = c.size + size_of item;
    handler = c.handler ++ added item ∷ [];
    cleanup_timer = true;
  }

  unfoldable pub add_at : Cache → ℕ → Option Cache → Bool × Cache
  unfolding destroy insert
  add_at c item none = (false, destroy c item)
  add_at c item (some c') = (true, insert c' item)

  unfoldable pub add : Cache → ℕ → Bool × Cache
  unfolding add_at need_room
  add c item = add_at c item (need_room c (size_of item))

  -- `RemoveAllMatch` and `ExpireCallback`: the loop over the sorted list; the iterator is moved on
  -- before the item is removed, so the items to come are those of the list at the start.
  unfoldable pub remove_loop : (ℕ → Bool) → List ℕ → Cache → ℕ × Cache
  unfolding remove_item
  remove_loop match [] c = (0, c)
  remove_loop match (item ∷ is) c =
      let removed = remove_loop match is (remove_item c item) in
      let kept = remove_loop match is c in if match item then (removed.0 + 1, removed.1) else kept

  unfoldable pub remove_all_match : (ℕ → Bool) → Cache → ℕ × Cache
  unfolding remove_loop
  remove_all_match match c = remove_loop match c.sorted_items c

  -- whether the timer is to go on, and the cache
  unfoldable pub expire_callback : (ℕ → ℕ) → ℕ → Cache → Bool × Cache
  unfolding remove_loop
  expire_callback expires now c =
      let (n, c') = remove_loop (λ item. leb (expires item) now) c.sorted_items c in
      (ltb 0 c'.size, c')

  module _ (find : List ℕ → ℕ → Option ℕ) where
    -- `Get`; `validate` is `item->Validate(now)` at the time of the call.
    unfoldable pub get_found : (ℕ → Bool) → Cache → Option ℕ → Option ℕ × Cache
    unfolding remove_item refresh_item
    get_found validate c none = (none, c)
    get_found validate c (some item) =
        if validate item then (some item, refresh_item c item) else (none, remove_item c item)

    unfoldable pub get : (ℕ → Bool) → Cache → ℕ → Option ℕ × Cache
    unfolding get_found
    get validate c key = get_found validate c (find c.items key)

    -- `Put`: the item found under the same key is removed.
    unfoldable pub replace : Cache → Option ℕ → Cache
    unfolding remove_item
    replace c none = c
    replace c (some old) = remove_item c old

    unfoldable pub put_at : Cache → ℕ → Option Cache → Bool × Cache
    unfolding destroy insert replace
    put_at c item none = (false, destroy c item)
    put_at c item (some c') = (true, insert (replace c' (find c'.items (key_of item))) item)

    unfoldable pub put : Cache → ℕ → Bool × Cache
    unfolding put_at need_room
    put c item = put_at c item (need_room c (size_of item))
