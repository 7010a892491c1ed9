-- ===== src/HttpCache/Found/Conditions.antt =====
-- When src/http/cache/Public.cxx answers a conditional request from the cache, and what it asks
-- the server.
use cm4all_beng_proxy.Common.{
  ℕ, Bool, true, Option, none, some, [], Bytes, codes, if◌then◌else◌, ◌≡◌, ◌⊎◌, refl, ap, ◌∙◌,
}
use cm4all_beng_proxy.StringMap.{StringMap, Trie, get}
use cm4all_beng_proxy.StringMap.Laws.{IsTrie, Distinct}
use cm4all_beng_proxy.StringMap.Set.{set-get}
use cm4all_beng_proxy.HttpCache.{Util, RequestInfo, Document}
use cm4all_beng_proxy.HttpCache.Found.{
  Answer, respond, served, requested, matches_none, unmodified_since, set_validator, revalidate,
  answered,
}

-- 0 for an outcome that is no response without a body.
unfoldable bodyless_status : Answer → ℕ
bodyless_status (respond status headers) = status
bodyless_status (served status headers) = 0
bodyless_status (requested headers) = 0

-- The outcome by the tests: 304 with the headers `h`, 412, or another one.
abbrev tests_outcome : Bool → Bool → Bool → Bool → Bool → StringMap → Answer → Answer
tests_outcome no_cache fails matches unmodified modified h next =
    answered
      (if no_cache
        then none
        else if fails
        then some (respond 412 [])
        else if matches
        then some (respond 304 h)
        else if unmodified
        then some (respond 304 h)
        else if modified
        then some (respond 412 [])
        else none)
      next

module _ (t : Trie) (u : Util) where
  -- The document has not been modified for the client: "If-None-Match" matches its entity tag, or
  -- there is none and the document is not newer than "If-Modified-Since".
  abbrev pub IsUnmodified : RequestInfo → Document → Type 0
  IsUnmodified info document =
      (matches_none t u info.if_none_match document ≡ true)
      ⊎ ((info.if_none_match ≡ none)
          × (unmodified_since t u info.if_modified_since
                (get t document.response_headers (codes "last-modified"))
              ≡ true))

module _ (t : Trie) where
  -- The header that is sent: the validator if it is that header's, else what was sent before.
  unfoldable pub validator_or : Bytes → Option Bytes → Bytes → Option Bytes → Option Bytes
  validator_or name none k before = before
  validator_or name (some value) k before = if t.equal name k then some value else before

module _ (t : Trie) (laws : IsTrie t) where
  set_validator-get :
      (name : Bytes) (value : Option Bytes) (headers : StringMap) (k : Bytes)
      → Distinct t headers
      → Distinct t (set_validator t name value headers)
        × (get t (set_validator t name value headers) k
            ≡ validator_or t name value k (get t headers k))
  unfolding set_validator validator_or
  set_validator-get name none headers k d = (d, refl)
  set_validator-get name (some value) headers k d =
      let (d', e, old) = set-get t laws name value headers k d in (d', e)

  -- With a trie that behaves as documented, if no header comes twice in a request: the request that
  -- is sent to revalidate a document has the entity tag of the document in "If-None-Match" if the
  -- document has one, its "Last-Modified" in "If-Modified-Since" if it has one, and all other
  -- headers, and these two without such a value, as the client sent them; none comes twice.
  pub revalidate-get :
      (document : Document) (headers : StringMap) (k : Bytes)
      → Distinct t headers
      → Distinct t (revalidate t document headers)
        × (get t (revalidate t document headers) k
            ≡ validator_or t (codes "if-none-match") document.info.etag k (
                validator_or t
                  (codes "if-modified-since")
                  document.info.last_modified
                  k
                  (get t headers k)))
  unfolding revalidate
  revalidate-get document headers k d =
      let since = set_validator t (codes "if-modified-since") document.info.last_modified headers in
      let (d1, e1) =
        set_validator-get (codes "if-modified-since") document.info.last_modified headers k d in
      let (d2, e2) = set_validator-get (codes "if-none-match") document.info.etag since k d1 in
      (d2, e2 ∙ ap (validator_or t (codes "if-none-match") document.info.etag k) e1)
