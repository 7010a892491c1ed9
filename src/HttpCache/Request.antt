-- ===== src/HttpCache/Request.antt =====
-- src/http/cache/RFC.cxx: which requests are looked up in the cache. A method is a number.
pub mod Lookup
use cm4all_beng_proxy.Common.{
  ℕ, Bool, true, false, ◌||◌, ◌&&◌, not, Option, none, some, List, [], ◌∷◌, Bytes, codes,
  if◌then◌else◌, ◌==◌, ◌>>=◌,
}
use cm4all_beng_proxy.StringMap.{StringMap, Trie, get, contains}
use cm4all_beng_proxy.HttpCache.{Util, RequestInfo}

-- The numbers of the methods.
pub record Methods : Type 0 where
  pub get_method : ℕ
  pub put_method : ℕ
  pub delete_method : ℕ
  pub post_method : ℕ

unfoldable pub request_invalidate : Methods → ℕ → Bool
request_invalidate ms method =
    method == ms.put_method || method == ms.delete_method || method == ms.post_method

module _ (t : Trie) where
  -- What the loop over the directives of a request does: `none` is the early return, else whether
  -- there was "no-cache" and "only-if-cached".
  unfoldable pub request_directives : Bool → List Bytes → Bool → Bool → Option (Bool × Bool)
  request_directives obey [] no_cache only = some (no_cache, only)
  request_directives obey (s ∷ ss) no_cache only =
      let with_only = request_directives obey ss no_cache true in
      let with_no_cache = request_directives obey ss true only in
      let others = request_directives obey ss no_cache only in
      if t.equal s (codes "only-if-cached")
      then with_only
      else if not obey
      then others
      else if t.equal s (codes "no-cache")
      then with_no_cache
      else if t.equal s (codes "no-store")
      then none
      else others

  unfoldable pub pragma_no_cache : Option Bytes → Bool
  pragma_no_cache none = false
  pragma_no_cache (some pragma) = t.equal pragma (codes "no-cache")

  unfoldable pub request_info : Bool → Bool → StringMap → Bool × Bool → RequestInfo
  unfolding get
  request_info is_remote has_query_string headers (no_cache, only_if_cached) = record {
    if_match = get t headers (codes "if-match");
    if_none_match = get t headers (codes "if-none-match");
    if_modified_since = get t headers (codes "if-modified-since");
    if_unmodified_since = get t headers (codes "if-unmodified-since");
    is_remote = is_remote;
    no_cache = no_cache;
    only_if_cached = only_if_cached;
    has_query_string = has_query_string;
  }

module _ (t : Trie) (u : Util) where
  unfoldable pub request_control : Bool → StringMap → Option Bytes → Option (Bool × Bool)
  unfolding request_directives pragma_no_cache get
  request_control obey headers (some cache_control) =
      request_directives t obey (u.directives cache_control) false false
  request_control obey headers none =
      if obey && pragma_no_cache t (get t headers (codes "pragma"))
      then none
      else some (false, false)

  -- `is_remote` and `has_query_string` are what the address says.
  unfoldable pub request_evaluate :
      Methods → ℕ → Bool → Bool → StringMap → Bool → Bool → Option RequestInfo
  unfolding request_control request_info contains get
  request_evaluate ms method is_remote has_query_string headers obey_no_cache has_request_body =
      if not (method == ms.get_method) || has_request_body
      then none
      else if contains t headers (codes "range")
      then none
      else if contains t headers (codes "authorization")
      then none
      else request_control obey_no_cache headers (get t headers (codes "cache-control"))
        >>= λ flags. some (request_info t is_remote has_query_string headers flags)
