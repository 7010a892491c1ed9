-- ===== src/StringMap/Set.antt =====
-- StringMap::Set and SecureSet of src/strmap.cxx.
use cm4all_beng_proxy.Common.{
  ℕ, Option, none, some, ◌∷◌, ◌++◌, Bytes, if◌then◌else◌, ◌≡◌, refl, sym,
}
use cm4all_beng_proxy.StringMap.{Item, StringMap, Trie, found_value, get, add, set_found, set}
use cm4all_beng_proxy.StringMap.Laws.{
  IsTrie, Distinct, Missing, lookup, get-lookup, lookup-middle, Distinct-middle, lookup-store_at,
  Distinct-store_at,
}

module _ (t : Trie) (laws : IsTrie t) where
  middle-lookup :
      (i : Item) (m m' a b : StringMap) (other : Bytes)
      → m ≡ a ++ b
      → m' ≡ a ++ i ∷ b
      → Distinct t m
      → Missing t i.key m
      → Distinct t m'
        × (lookup t m' other ≡ (if t.equal i.key other then some i.value else lookup t m other))
  middle-lookup i m m' a b other e f d p =
      rw (e, f)
        (
          Distinct-middle t laws i a b (rw (sym e) d) (rw (sym e) p),
          lookup-middle t laws i a b other (rw (sym e) p),
        )

  insert-lookup :
      (i : Item) (m : StringMap) (other : Bytes)
      → Distinct t m
      → Missing t i.key m
      → Distinct t (t.insert i m)
        × (lookup t (t.insert i m) other
            ≡ (if t.equal i.key other then some i.value else lookup t m other))
  insert-lookup i m other d p =
      let (a, b, e, f) = laws.inserted i m in middle-lookup i m (t.insert i m) a b other e f d p

  set_found-lookup :
      (k v : Bytes) (m : StringMap) (other : Bytes) (found : Option ℕ)
      → Distinct t m
      → t.find m k ≡ found
      → Distinct t (set_found t k v m found).0
        × (lookup t (set_found t k v m found).0 other
            ≡ (if t.equal k other then some v else lookup t m other))
        × ((set_found t k v m found).1 ≡ get t m k)
  unfolding set_found add get found_value
  set_found-lookup k v m other none d e =
      let (d', l) =
        insert-lookup (record { key = k; value = v }) m other d (laws.found_none m k e) in
      (d', l, rw e refl)
  set_found-lookup k v m other (some n) d e = (
    Distinct-store_at t laws m n v d,
    lookup-store_at t laws m k n v other d (laws.found_some m k n e),
    rw e refl,
  )

  -- With a trie that behaves as documented, in a map without two items of one key: Set keeps this,
  -- makes Get return the new value for its key and what it returned before for any other, and
  -- returns what Get returned before for its key.
  pub set-get :
      (k v : Bytes) (m : StringMap) (other : Bytes)
      → Distinct t m
      → Distinct t (set t k v m).0
        × (get t (set t k v m).0 other ≡ (if t.equal k other then some v else get t m other))
        × ((set t k v m).1 ≡ get t m k)
  unfolding set
  set-get k v m other d =
      let (d', l, old) = set_found-lookup k v m other (t.find m k) d refl in
      (
        d',
        rw
            (
              get-lookup t laws (set_found t k v m (t.find m k)).0 other d',
              get-lookup t laws m other d,
            )
            l,
        old,
      )
