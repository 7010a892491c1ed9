-- ===== src/HttpCache/Found.antt =====
-- What the HTTP cache does with a document that it has found for a request: CheckCacheRequest,
-- http_cache_may_serve, HttpCache::Found, Revalidate, Miss and Use of src/http/cache/Public.cxx.
-- The allocators, the log and the asynchronous request are left out: a request that is sent is its
-- headers.
pub mod Conditions
use cm4all_beng_proxy.Common.{
  ℕ, suc, Bool, true, false, ◌||◌, ◌&&◌, not, Option, none, some, List, [], ◌∷◌, Bytes, codes,
  if◌then◌else◌, ℤ, leℤ, ltℤ,
}
use cm4all_beng_proxy.StringMap.{StringMap, Trie, get, set, copy_items, secure_set}
use cm4all_beng_proxy.HttpCache.{Util, RequestInfo, ResponseInfo, Document, has_time}

-- A response without a body, the document with its body, or a request to the server.
pub data Answer : Type 0 where
  respond : ℕ → StringMap → Answer
  served : ℕ → StringMap → Answer
  requested : StringMap → Answer

pub record Stats : Type 0 where
  pub hits : ℕ
  pub misses : ℕ

unfoldable pub is_set : Option Bytes → Bool
is_set none = false
is_set (some s) = true

unfoldable pub may_serve : ℤ → RequestInfo → Document → Bool
may_serve system_now info document =
    info.only_if_cached || (not info.no_cache && leℤ system_now document.info.expires)

unfoldable pub answered : Option Answer → Answer → Answer
answered none next = next
answered (some response) next = response

unfoldable pub miss : RequestInfo → StringMap → Stats → Stats × Answer
miss info headers stats = (
  record stats { misses = suc stats.misses },
  if info.only_if_cached then respond 504 [] else requested headers,
)

module _ (t : Trie) where
  -- DispatchNotModified()
  unfoldable pub not_modified : Document → Answer
  unfolding copy_items
  not_modified document = respond 304 (copy_items t [] document.response_headers)

  -- `HttpCache::Serve`
  unfoldable pub serve : Document → Answer
  unfolding copy_items
  serve document = served document.status (copy_items t [] document.response_headers)

  unfoldable pub set_validator : Bytes → Option Bytes → StringMap → StringMap
  unfolding set
  set_validator name none headers = headers
  set_validator name (some value) headers = (set t name value headers).0

  -- The headers of the request that `Revalidate` sends.
  unfoldable pub revalidate : Document → StringMap → StringMap
  unfolding set_validator
  revalidate document headers =
      set_validator (codes "if-none-match") document.info.etag
        (set_validator (codes "if-modified-since") document.info.last_modified headers)

  unfoldable pub update_value : Bytes → Option Bytes → StringMap → StringMap
  unfolding secure_set
  update_value name none dest = dest
  update_value name (some value) dest = secure_set t name (some value) dest

  unfoldable pub update_header : StringMap → StringMap → Bytes → StringMap
  unfolding update_value get
  update_header dest src name = update_value name (get t src name) dest

module _ (t : Trie) (u : Util) where
  unfoldable pub contains_etag : Bytes → Option Bytes → Bool
  contains_etag list none = false
  contains_etag list (some etag) = u.http_list_contains list etag

  unfoldable pub check_etag_list : Bytes → StringMap → Bool
  unfolding contains_etag get
  check_etag_list list response_headers =
      if t.equal list (codes "*")
      then true
      else contains_etag list (get t response_headers (codes "etag"))

  abbrev pub precondition_failed : Answer
  precondition_failed = respond 412 []

  unfoldable pub fails_match : Option Bytes → Document → Bool
  unfolding check_etag_list
  fails_match none document = false
  fails_match (some list) document = not (check_etag_list list document.response_headers)

  unfoldable pub matches_none : Option Bytes → Document → Bool
  unfolding check_etag_list
  matches_none none document = false
  matches_none (some list) document = check_etag_list list document.response_headers

  -- The tests of "If-Modified-Since" and of "If-Unmodified-Since" against "Last-Modified".
  unfoldable pub unmodified_since : Option Bytes → Option Bytes → Bool
  unfolding has_time
  unmodified_since none last_modified = false
  unmodified_since (some since) none = false
  unmodified_since (some since) (some last_modified) =
      let ims = u.http_date_parse since in
      let lm = u.http_date_parse last_modified in
      if t.equal since last_modified then true else has_time ims && has_time lm && leℤ lm ims

  unfoldable pub modified_since : Option Bytes → Option Bytes → Bool
  unfolding has_time
  modified_since none last_modified = false
  modified_since (some since) none = false
  modified_since (some since) (some last_modified) =
      let iums = u.http_date_parse since in
      let lm = u.http_date_parse last_modified in has_time iums && has_time lm && ltℤ iums lm

  -- `none` is that the request goes on, `some` the response that was sent.
  unfoldable pub check_cache_request : RequestInfo → Document → Option Answer
  unfolding fails_match matches_none not_modified is_set unmodified_since modified_since get
  check_cache_request info document =
      let last_modified = get t document.response_headers (codes "last-modified") in
      if fails_match info.if_match document
      then some precondition_failed
      else if matches_none info.if_none_match document
      then some (not_modified t document)
      else if not (is_set info.if_none_match)
          && unmodified_since info.if_modified_since last_modified
      then some (not_modified t document)
      else if modified_since info.if_unmodified_since last_modified
      then some precondition_failed
      else none

  unfoldable pub serve_or_revalidate : ℤ → RequestInfo → Document → StringMap → Answer
  unfolding may_serve serve revalidate
  serve_or_revalidate system_now info document headers =
      if may_serve system_now info document
      then serve t document
      else requested (revalidate t document headers)

  unfoldable pub found_document : ℤ → RequestInfo → Document → StringMap → Stats → Stats × Answer
  unfolding check_cache_request answered serve_or_revalidate
  found_document system_now info document headers stats = (
    record stats { hits = suc stats.hits },
    answered (if info.no_cache then none else check_cache_request info document)
        (serve_or_revalidate system_now info document headers),
  )

  -- `Use`, with what the heap has found.
  unfoldable pub use_found : ℤ → RequestInfo → Option Document → StringMap → Stats → Stats × Answer
  unfolding found_document miss
  use_found system_now info none headers stats = miss info headers stats
  use_found system_now info (some document) headers stats =
      found_document system_now info document headers stats
