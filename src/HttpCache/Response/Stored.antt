-- ===== src/HttpCache/Response/Stored.antt =====
-- Exactly which responses http_cache_response_evaluate of src/http/cache/RFC.cxx lets the cache
-- store.
use cm4all_beng_proxy.Common.{
  ℕ, Bool, true, false, some, List, [], Bytes, codes, ℤ, ◌+ℤ◌, ◌≡◌, ◌≢◌, ◌⊎◌,
}
use cm4all_beng_proxy.StringMap.{StringMap, Trie, get}
use cm4all_beng_proxy.HttpCache.{Util, RequestInfo, has_time}
use cm4all_beng_proxy.HttpCache.Response.{is_missing}

module _ (t : Trie) (u : Util) (request : RequestInfo) (eager : Bool) (headers : StringMap) where
  -- There is a positive "max-age", or "Expires" is a date, which stays one when the offset is added.
  abbrev pub HasExpiry : ℤ → List ℕ → Type 0
  HasExpiry offset found =
      (found ≢ [])
      ⊎ ((date : Bytes) × (get t headers (codes "expires") ≡ some date)
          × (has_time (u.http_date_parse date) ≡ true)
          × (has_time (u.http_date_parse date +ℤ offset) ≡ true))

  -- It expires, or the cache is eager, or there is no query string and it can be asked for again.
  abbrev pub IsUseful : ℤ → List ℕ → Type 0
  IsUseful offset found =
      HasExpiry offset found
      ⊎ (eager ≡ true)
      ⊎ ((request.has_query_string ≡ false)
          × ((is_missing (get t headers (codes "last-modified")) ≡ false)
              ⊎ (is_missing (get t headers (codes "etag")) ≡ false)))
