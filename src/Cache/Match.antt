-- ===== src/Cache/Match.antt =====
-- The operations of src/cache/Cache.cxx and Cache.hxx that follow the hash set of libcommon: by key
-- with a condition, and over all of it. In which order the set disposes items is up to it.
use cm4all_beng_proxy.Common.{
  ℕ, Bool, true, false, not, Option, none, some, List, ◌≡◌, ◌&&◌, ◌==◌, ◌<◌, ◌≤◌, if◌then◌else◌,
  All, count,
}
use cm4all_beng_proxy.Cache.{Cache, refresh_item, remove_item, remove_loop, add}

-- `expire_find_if` gives the expired items that were disposed on the way and the item that was
-- found; `matching_key` and `all_items` are the items that remove_and_dispose_key(_if) and
-- clear_and_dispose dispose, in order.
pub record HashSet : Type 0 where
  pub expire_find_if : List ℕ → ℕ → (ℕ → Bool) → (ℕ → Bool) → List ℕ × Option ℕ
  pub matching_key : List ℕ → ℕ → (ℕ → Bool) → List ℕ
  pub all_items : List ℕ → List ℕ

-- The documented behaviour: what is disposed is in the set, no more often than there, and expired;
-- what is found is in the set, has the key, matches and is not expired; by key, each item with the
-- key that matches is disposed, and clearing disposes each item.
pub record IsHashSet (key_of : ℕ → ℕ) (h : HashSet) : Type 0 where
  pub fewer :
      (is : List ℕ) (key : ℕ) (expired match : ℕ → Bool) (i : ℕ)
      → count i (h.expire_find_if is key expired match).0 ≤ count i is
  pub disposed :
      (is : List ℕ) (key : ℕ) (expired match : ℕ → Bool)
      → All (λ i. expired i ≡ true) (h.expire_find_if is key expired match).0
  pub found :
      (is : List ℕ) (key : ℕ) (expired match : ℕ → Bool) (item : ℕ)
      → (h.expire_find_if is key expired match).1 ≡ some item
      → (0 < count item is) × (key_of item ≡ key) × (match item ≡ true) × (expired item ≡ false)
  pub matching :
      (is : List ℕ) (key : ℕ) (match : ℕ → Bool) (i : ℕ)
      → count i (h.matching_key is key match)
        ≡ (if (key_of i == key) && match i then count i is else 0)
  pub all : (is : List ℕ) (i : ℕ) → count i (h.all_items is) ≡ count i is

unfoldable pub refresh_found : Option ℕ → Cache → Cache
unfolding refresh_item
refresh_found none c = c
refresh_found (some item) c = refresh_item c item

module _ (size_of key_of : ℕ → ℕ) where
  -- RemoveItem() or ItemRemoved() for each item that the set disposes.
  unfoldable pub dispose : List ℕ → Cache → Cache
  unfolding remove_loop
  dispose is c = (remove_loop size_of key_of (λ i. true) is c).1

  unfoldable pub remove_old : Option ℕ → Cache → Cache
  unfolding remove_item
  remove_old none c = c
  remove_old (some old) c = remove_item size_of key_of c old

module _ (size_of key_of : ℕ → ℕ) (h : HashSet) where
  -- `GetMatch`; `validate` is `item.Validate(now)` at the time of the call.
  unfoldable pub get_match : (ℕ → Bool) → (ℕ → Bool) → Cache → ℕ → Option ℕ × Cache
  unfolding dispose refresh_found
  get_match validate match c key =
      let (expired, o) = h.expire_find_if c.items key (λ i. not (validate i)) match in
      (o, refresh_found o (dispose size_of key_of expired c))

  unfoldable pub put_match : (ℕ → Bool) → (ℕ → Bool) → Cache → ℕ → Bool × Cache
  unfolding get_match remove_old add
  put_match validate match c item =
      let (old, c') = get_match validate match c (key_of item) in
      add size_of key_of (remove_old size_of key_of old c') item

  -- `Remove` of a key
  unfoldable pub remove_key : Cache → ℕ → Cache
  unfolding dispose
  remove_key c key = dispose size_of key_of (h.matching_key c.items key (λ i. true)) c

  unfoldable pub remove_key_if : (ℕ → Bool) → Cache → ℕ → Cache
  unfolding dispose
  remove_key_if pred c key = dispose size_of key_of (h.matching_key c.items key pred) c

  unfoldable pub flush : Cache → Cache
  unfolding dispose
  flush c = dispose size_of key_of (h.all_items c.items) c
