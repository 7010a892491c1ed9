-- ===== src/HttpCache/Response/Cacheable.antt =====
-- The tests of http_cache_response_evaluate of src/http/cache/RFC.cxx, in turn.
use cm4all_beng_proxy.Common.{
  ℕ, suc, ◌*◌, Bool, true, false, ◌&&◌, not, Option, none, Bytes, codes, if◌then◌else◌, ℤ, pos,
  ◌+ℤ◌, eqℤ, ◌>>=◌, ◌≡◌, ◌↔◌, refl, All,
}
use cm4all_beng_proxy.StringMap.{StringMap, Trie, get}
use cm4all_beng_proxy.HttpCache.{
  second, Util, RequestInfo, ResponseInfo, no_time, no_offset, has_time,
}
use cm4all_beng_proxy.HttpCache.Response.Loops.{
  ages, joined, Permitted, IsVaryable, directive_iff, vary_iff,
}
use cm4all_beng_proxy.HttpCache.Response.Steps.{
  Returns, guard_iff, bind_iff, not-true, IsKeepable, keep_iff,
}
use cm4all_beng_proxy.HttpCache.Response.{
  status_cacheable, too_large, get_server_date_offset, directive_loop, directive_list, vary_loop,
  is_missing, explicit_expires, finish_info, after_directives, response_evaluate,
}

module _ (t : Trie) (u : Util) (request : RequestInfo) (eager : Bool) (clock : ℕ → ℤ)
    (headers : StringMap) where
  after_iff :
      (found : ℤ) (n : ℕ)
      → let offset = get_server_date_offset t u request (clock n) headers in
        Returns (after_directives t u request eager clock headers (found, n)) ↔ (
          (eqℤ offset no_offset ≡ false)
          × All (IsVaryable t) (t.equal_range headers (codes "vary"))
          × IsKeepable
              (has_time (explicit_expires t u found offset headers))
              eager
              request.has_query_string
              (is_missing (get t headers (codes "last-modified")))
              (is_missing (get t headers (codes "etag"))))
  unfolding after_directives finish_info
  after_iff found n =
      let now = clock n in
      let offset = get_server_date_offset t u request now headers in
      let expires = explicit_expires t u found offset headers in
      let timed = has_time expires in
      let query = request.has_query_string && not eager && not timed in
      let varies = vary_loop t none (t.equal_range headers (codes "vary")) in
      let info : Option Bytes → ResponseInfo = λ vary. record {
        expires = expires;
        last_modified = get t headers (codes "last-modified");
        etag = get t headers (codes "etag");
        vary = vary;
      } in
      let finish : Option Bytes → Option ResponseInfo =
        λ vary. finish_info eager (clock (suc n)) (info vary) in
      let rest : Option ResponseInfo = varies >>= finish in
      let no_date = guard_iff (eqℤ offset no_offset) (if query then none else rest) in
      let no_expiry = guard_iff query rest in
      let end = bind_iff finish varies in
      let keep : (vary : Option Bytes)
          → ((query ≡ false) × Returns (finish vary))
            ↔ IsKeepable timed eager request.has_query_string
                (is_missing (get t headers (codes "last-modified")))
                (is_missing (get t headers (codes "etag"))) =
        λ vary.
          keep_iff timed eager request.has_query_string
            (is_missing (get t headers (codes "last-modified")))
            (is_missing (get t headers (codes "etag")))
            (record (info vary) { expires = clock (suc n) +ℤ pos (3600 * second) }) (info vary) in
      (
        (λ r.
            let (o, r1) = no_date.0 r in
            let (q, r2) = no_expiry.0 r1 in
            let (v, e, r3) = end.0 r2 in
            (
              o,
              ((vary_iff t none (t.equal_range headers (codes "vary")) v).0 e).0,
              (keep v).0 (q, r3),
            )),
        (λ (o, l, k).
            let v = joined none (t.equal_range headers (codes "vary")) in
            let (q, r3) = (keep v).1 k in
            no_date.1 (
              o,
              no_expiry.1 (
                q,
                end.1
                    (v, (vary_iff t none (t.equal_range headers (codes "vary")) v).1 (l, refl), r3),
              ),
            )),
      )

  -- each test of the code
  pub evaluate_tests_iff :
      (status : ℕ) (body_available : ℤ)
      → let directives = directive_list u (get t headers (codes "cache-control")) in
        let (found, n) = ages u clock directives (no_time, 0) in
        let offset = get_server_date_offset t u request (clock n) headers in
        Returns (response_evaluate t u request eager clock status headers body_available) ↔ (
          (status_cacheable status ≡ true)
          × (too_large body_available ≡ false)
          × All (Permitted t u) directives
          × (eqℤ offset no_offset ≡ false)
          × All (IsVaryable t) (t.equal_range headers (codes "vary"))
          × IsKeepable
              (has_time (explicit_expires t u found offset headers))
              eager
              request.has_query_string
              (is_missing (get t headers (codes "last-modified")))
              (is_missing (get t headers (codes "etag"))))
  unfolding response_evaluate
  evaluate_tests_iff status body_available =
      let directives = directive_list u (get t headers (codes "cache-control")) in
      let p : ℤ × ℕ = ages u clock directives (no_time, 0) in
      let store : ℤ × ℕ → Option ResponseInfo = after_directives t u request eager clock headers in
      let loop = directive_loop t u clock directives (no_time, 0) in
      let sized = if too_large body_available then none else loop >>= store in
      let by_status = guard_iff (not (status_cacheable status)) sized in
      let by_size = guard_iff (too_large body_available) (loop >>= store) in
      let by_directives = bind_iff store loop in
      (
        (λ r.
            let (s, r1) = by_status.0 r in
            let (l, r2) = by_size.0 r1 in
            let (q, e, r3) = by_directives.0 r2 in
            let (a, f) = (directive_iff t u clock directives (no_time, 0) q).0 e in
            let (o, v, k) = (after_iff p.0 p.1).0 (moved f r3) in
            (not-true (status_cacheable status) s, l, a, o, v, k)),
        (λ (s, l, a, o, v, k). by_status.1 (
          true_not s,
          by_size.1 (
            l,
            by_directives.1 (
              p,
              (directive_iff t u clock directives (no_time, 0) p).1 (a, refl),
              (after_iff p.0 p.1).1 (o, v, k),
            ),
          ),
        )),
      )
    where
      moved :
          {p q : ℤ × ℕ}
          → p ≡ q
          → Returns (after_directives t u request eager clock headers q)
          → Returns (after_directives t u request eager clock headers p)
      moved f r = rw f r

      true_not : status_cacheable status ≡ true → not (status_cacheable status) ≡ false
      true_not s = rw s refl
