-- ===== src/StringMap.antt =====
-- src/strmap.cxx and strmap.hxx: the multimap of strings that holds headers, cookies and arguments.
-- A map is its items in the order of an iteration. The hash array trie of libcommon is the
-- interface `Trie`; a place is an index into the items, as an iterator is. A `const char *` that
-- may be nullptr is an Option; copying a string gives an equal one.
pub mod Laws
pub mod Set
use cm4all_beng_proxy.Common.{
  ℕ, zero, suc, Bool, true, false, Option, none, some, List, [], ◌∷◌, ◌++◌, Bytes, get_elem?,
  if◌then◌else◌,
}

pub record Item : Type 0 where
  pub key : Bytes
  pub value : Bytes

abbrev pub StringMap : Type 0
StringMap = List Item

-- IntrusiveHashArrayTrie with StringIsEqual. `remove_key` is remove_and_dispose_key: the items in
-- the order in which they are disposed, and those that are left.
pub record Trie : Type 0 where
  pub equal : Bytes → Bytes → Bool
  pub find : StringMap → Bytes → Option ℕ
  pub equal_range : StringMap → Bytes → StringMap
  pub insert : Item → StringMap → StringMap
  pub remove_key : StringMap → Bytes → StringMap × StringMap

-- `i->value`
unfoldable pub value_at : StringMap → ℕ → Option Bytes
value_at [] n = none
value_at (i ∷ m) zero = some i.value
value_at (i ∷ m) (suc n) = value_at m n

-- `i->value = value`
unfoldable pub store_at : StringMap → ℕ → Bytes → StringMap
store_at [] n v = []
store_at (i ∷ m) zero v = record i { value = v } ∷ m
store_at (i ∷ m) (suc n) v = i ∷ store_at m n v

unfoldable pub erase_at : StringMap → ℕ → StringMap
erase_at [] n = []
erase_at (i ∷ m) zero = m
erase_at (i ∷ m) (suc n) = i ∷ erase_at m n

-- The last that a disposer has seen.
unfoldable pub last_value : Option Bytes → StringMap → Option Bytes
last_value seen [] = seen
last_value seen (i ∷ m) = last_value (some i.value) m

unfoldable pub is_empty : StringMap → Bool
is_empty [] = true
is_empty (i ∷ m) = false

unfoldable pub found_value : StringMap → Option ℕ → Option Bytes
unfolding value_at
found_value m none = none
found_value m (some n) = value_at m n

unfoldable pub is_present : Option Bytes → Bool
is_present none = false
is_present (some v) = true

unfoldable pub remove_found : StringMap → Option ℕ → StringMap × Option Bytes
unfolding erase_at value_at
remove_found m none = (m, none)
remove_found m (some n) = (erase_at m n, value_at m n)

-- The item that SecureSet uses again: the last that was disposed.
unfoldable pub reuse : Bytes → Bytes → StringMap → Item
reuse k v [] = record { key = k; value = v }
reuse k v (i ∷ []) = record i { value = v }
reuse k v (i ∷ j ∷ m) = reuse k v (j ∷ m)

module _ (t : Trie) where
  unfoldable pub add : Bytes → Bytes → StringMap → StringMap
  add k v m = t.insert (record { key = k; value = v }) m

  -- `Get`, both overloads
  unfoldable pub get : StringMap → Bytes → Option Bytes
  unfolding found_value
  get m k = found_value m (t.find m k)

  unfoldable pub contains : StringMap → Bytes → Bool
  unfolding get is_present
  contains m k = is_present (get m k)

  -- The map, and the old value or nullptr.
  unfoldable pub set_found : Bytes → Bytes → StringMap → Option ℕ → StringMap × Option Bytes
  unfolding add store_at value_at
  set_found k v m none = (add k v m, none)
  set_found k v m (some n) = (store_at m n v, value_at m n)

  unfoldable pub set : Bytes → Bytes → StringMap → StringMap × Option Bytes
  unfolding set_found
  set k v m = set_found k v m (t.find m k)

  unfoldable pub remove : Bytes → StringMap → StringMap × Option Bytes
  unfolding remove_found
  remove k m = remove_found m (t.find m k)

  unfoldable pub remove_all : Bytes → StringMap → StringMap × Option Bytes
  unfolding last_value
  remove_all k m = let (disposed, left) = t.remove_key m k in (left, last_value none disposed)

  unfoldable pub secure_set : Bytes → Option Bytes → StringMap → StringMap
  unfolding reuse
  secure_set k none m = (t.remove_key m k).1
  secure_set k (some v) m =
      let (disposed, left) = t.remove_key m k in t.insert (reuse k v disposed) left

  -- The copy constructors, deep and shallow, and strmap_dup(): the loop, with the map so far.
  unfoldable pub copy_items : StringMap → StringMap → StringMap
  unfolding add
  copy_items m [] = m
  copy_items m (i ∷ src) = copy_items (add i.key i.value m) src

  -- the copy of a map that may be nullptr
  unfoldable pub copy_checked : Option StringMap → StringMap
  unfolding copy_items
  copy_checked none = []
  copy_checked (some src) = copy_items [] src

  unfoldable pub add_values : Bytes → StringMap → StringMap → StringMap
  unfolding add
  add_values k m [] = m
  add_values k m (i ∷ src) = add_values k (add k i.value m) src

  unfoldable pub copy_from : StringMap → Bytes → StringMap → StringMap
  unfolding add_values
  copy_from src k m = add_values k m (t.equal_range src k)

  unfoldable pub list_copy_from : StringMap → List Bytes → StringMap → StringMap
  unfolding copy_from
  list_copy_from src [] m = m
  list_copy_from src (k ∷ ks) m = list_copy_from src ks (copy_from src k m)

  -- `starts_with` is StringStartsWith of libcommon.
  unfoldable pub prefix_copy_from :
      (Bytes → Bytes → Bool) → Bytes → StringMap → StringMap → StringMap
  unfolding add
  prefix_copy_from starts_with prefix [] m = m
  prefix_copy_from starts_with prefix (i ∷ src) m =
      prefix_copy_from starts_with prefix src
        (if starts_with i.key prefix then add i.key i.value m else m)

  -- strmap_get_checked()
  unfoldable pub get_checked : Option StringMap → Bytes → Option Bytes
  unfolding get
  get_checked none k = none
  get_checked (some m) k = get m k
