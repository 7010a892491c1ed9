-- ===== src/Session/Truncated/Whole.antt =====
-- The end of a file in the middle of a session: bp/session/Read.cxx.
use cm4all_beng_proxy.Common.{
  ℕ, zero, suc, ◌≤◌, ◌≡◌, ◌≢◌, refl, sym, ap, ◌∙◌, Bool, true, false, none, some, List, [], ◌∷◌,
  ◌++◌, Bytes, length, ◌==◌, arith, Bool-cases, inl, inr, length-append, append-nil,
}
use cm4all_beng_proxy.Session.{
  widget, Widgets, empty_set, Cookie, Realms, SessionId, Session, emplace_widget, emplace_realm,
  add_cookie,
}
use cm4all_beng_proxy.Session.Codec.{
  Machine, IsMachine, session_deserializer_error, end_of_file, undefined_view, Outcome, ok, failed,
  out_of_fuel, Reader,
}
use cm4all_beng_proxy.Session.Magic
use cm4all_beng_proxy.Session.Read.{
  Mark, at_end, at_item, corrupt, mark, do_read_widget_session, read_widget_entry, widgets_by,
  read_widget_sessions, read_cookie, jar_by, read_cookie_jar, read_translate, read_realm_fields,
  read_realm_session, realms_by, read_realms, read_id, do_read_session, session_read,
}
use cm4all_beng_proxy.Session.Truncated.{
  Grows, Extends, then-Extends, pure-Extends, throw-Extends, number-Extends, string-Extends,
  array-Extends, bool-Extends, end-Extends, view-Extends,
}
use cm4all_beng_proxy.Session.Total.{Takes, session_read-Takes}
use cm4all_beng_proxy.Session.Write.{session_write}
use cm4all_beng_proxy.Session.RoundTrip.Whole.{
  IsStoredSession, reloaded, session_read-session_write,
}

module _ (t : Bytes) (m : Machine) where
  session-Extends :
      (r r' : Reader Widgets)
      → Extends t r r'
      → Extends t (do_read_widget_session m r) (do_read_widget_session m r')
  unfolding do_read_widget_session
  session-Extends r r' h = then-Extends t r r' _ _ h (λ children.
      then-Extends t _ _ _ _ (string-Extends t m) (λ p.
        then-Extends t _ _ _ _ (string-Extends t m) (λ q. end-Extends t m (widget children p q))))

  widgets_by-Extends :
      (k : Mark) (r r' : Reader Widgets) (next next' : Widgets → Reader Widgets) (ws : Widgets)
      → Extends t r r'
      → ((ws' : Widgets) → Extends t (next ws') (next' ws'))
      → Extends t (widgets_by m k r next ws) (widgets_by m k r' next' ws)
  unfolding widgets_by read_widget_entry
  widgets_by-Extends at_end r r' next next' ws children rest = pure-Extends t ws
  widgets_by-Extends at_item r r' next next' ws children rest =
      then-Extends t _ _ _ _ (string-Extends t m) (λ id.
        then-Extends t _ _ _ _ (session-Extends r r' children) (λ w.
          then-Extends t _ _ _ _ (view-Extends t m id) (λ key. rest (emplace_widget key w ws))))
  widgets_by-Extends corrupt r r' next next' ws children rest = throw-Extends t _ _

  widgets-Extends :
      (n n' : ℕ) (ws : Widgets)
      → n ≤ n'
      → Extends t (read_widget_sessions m n ws) (read_widget_sessions m n' ws)
  unfolding read_widget_sessions
  widgets-Extends zero n' ws le = unfold Extends in λ s. tt
  widgets-Extends (suc n) zero ws le = absurd (omega arith)
  widgets-Extends (suc n) (suc n') ws le = then-Extends t _ _ _ _ (number-Extends t m 4) (λ magic.
      widgets_by-Extends (mark Magic.widget_session magic) _ _ (read_widget_sessions m n)
        (read_widget_sessions m n') ws (widgets-Extends n n' empty_set (omega arith))
        (λ ws'. widgets-Extends n n' ws' (omega arith)))

  cookie-Extends : Extends t (read_cookie m) (read_cookie m)
  unfolding read_cookie
  cookie-Extends = then-Extends t _ _ _ _ (string-Extends t m) (λ name.
      then-Extends t _ _ _ _ (string-Extends t m) (λ value.
        then-Extends t _ _ _ _ (string-Extends t m) (λ domain.
          then-Extends t _ _ _ _ (string-Extends t m) (λ path.
            then-Extends t _ _ _ _ (number-Extends t m m.expiry_size)
              (λ expires. end-Extends t m _)))))

  jar_by-Extends :
      (k : Mark) (next next' : List Cookie → Reader (List Cookie)) (jar : List Cookie)
      → ((jar' : List Cookie) → Extends t (next jar') (next' jar'))
      → Extends t (jar_by m k next jar) (jar_by m k next' jar)
  unfolding jar_by
  jar_by-Extends at_end next next' jar rest = pure-Extends t jar
  jar_by-Extends at_item next next' jar rest =
      then-Extends t _ _ _ _ cookie-Extends (λ cookie. rest (add_cookie cookie jar))
  jar_by-Extends corrupt next next' jar rest = throw-Extends t _ _

  jar-Extends :
      (n n' : ℕ) (jar : List Cookie)
      → n ≤ n'
      → Extends t (read_cookie_jar m n jar) (read_cookie_jar m n' jar)
  unfolding read_cookie_jar
  jar-Extends zero n' jar le = unfold Extends in λ s. tt
  jar-Extends (suc n) zero jar le = absurd (omega arith)
  jar-Extends (suc n) (suc n') jar le = then-Extends t _ _ _ _ (number-Extends t m 4) (λ magic.
      jar_by-Extends (mark Magic.magic_cookie magic) (read_cookie_jar m n) (read_cookie_jar m n')
        jar (λ jar'. jar-Extends n n' jar' (omega arith)))

  translate-Extends : (b : Bool) → Extends t (read_translate m b) (read_translate m b)
  unfolding read_translate
  translate-Extends true = array-Extends t m
  translate-Extends false = pure-Extends t none

  fields-Extends :
      (n n' : ℕ) (b : Bool)
      → n ≤ n'
      → Extends t (read_realm_fields m n b) (read_realm_fields m n' b)
  unfolding read_realm_fields
  fields-Extends n n' b le = then-Extends t _ _ _ _ (string-Extends t m) (λ site.
      then-Extends t _ _ _ _ (translate-Extends b) (λ translate.
        then-Extends t _ _ _ _ (string-Extends t m) (λ user.
          then-Extends t _ _ _ _ (number-Extends t m m.expiry_size) (λ expires.
            then-Extends t _ _ _ _ (widgets-Extends n n' empty_set le) (λ ws.
              then-Extends t _ _ _ _ (jar-Extends n n' [] le) (λ jar.
                then-Extends t _ _ _ _ (number-Extends t m 1) (λ same_site. end-Extends t m _)))))))

  realm-Extends :
      (n n' magic : ℕ)
      → n ≤ n'
      → Extends t (read_realm_session m n magic) (read_realm_session m n' magic)
  unfolding read_realm_session
  realm-Extends n n' magic le = elim (Bool-cases (magic == Magic.realm_session)) [
    | inl new ↦ rw new (fields-Extends n n' true le)
    | inr other ↦ elim (Bool-cases (magic == Magic.realm_session_old)) [
      | inl old ↦ rw (other, old) (fields-Extends n n' false le)
      | inr neither ↦ rw (other, neither) (throw-Extends t _ _)
    ]
  ]

  realms_by-Extends :
      (n n' : ℕ) (b : Bool) (magic : ℕ) (next next' : Realms → Reader Realms) (realms : Realms)
      → n ≤ n'
      → ((realms' : Realms) → Extends t (next realms') (next' realms'))
      → Extends t (realms_by m b n magic next realms) (realms_by m b n' magic next' realms)
  unfolding realms_by
  realms_by-Extends n n' true magic next next' realms le rest = pure-Extends t realms
  realms_by-Extends n n' false magic next next' realms le rest =
      then-Extends t _ _ _ _ (string-Extends t m) (λ name.
        then-Extends t _ _ _ _ (realm-Extends n n' magic le) (λ realm.
          then-Extends t _ _ _ _ (view-Extends t m name)
            (λ key. rest (emplace_realm key realm realms))))

  realms-Extends :
      (n n' : ℕ) (realms : Realms)
      → n ≤ n'
      → Extends t (read_realms m n realms) (read_realms m n' realms)
  unfolding read_realms
  realms-Extends zero n' realms le = unfold Extends in λ s. tt
  realms-Extends (suc n) zero realms le = absurd (omega arith)
  realms-Extends (suc n) (suc n') realms le =
      then-Extends t _ _ _ _ (number-Extends t m 4) (λ magic.
        realms_by-Extends n n' (magic == Magic.end_of_list) magic (read_realms m n)
          (read_realms m n') realms (omega arith)
          (λ realms'. realms-Extends n n' realms' (omega arith)))

  id-Extends : Extends t (read_id m) (read_id m)
  unfolding read_id
  id-Extends =
      then-Extends t _ _ _ _ (number-Extends t m 8)
        (λ low. then-Extends t _ _ _ _ (number-Extends t m 8) (λ high. pure-Extends t _))

  do_session-Extends :
      (n n' : ℕ) (salt id : SessionId)
      → n ≤ n'
      → Extends t (do_read_session m n salt id) (do_read_session m n' salt id)
  unfolding do_read_session
  do_session-Extends n n' salt id le =
      then-Extends t _ _ _ _ (number-Extends t m m.expiry_size) (λ expires.
        then-Extends t _ _ _ _ (number-Extends t m 4) (λ counter.
          then-Extends t _ _ _ _ (bool-Extends t m) (λ received.
            then-Extends t _ _ _ _ (array-Extends t m) (λ translate.
              then-Extends t _ _ _ _ (string-Extends t m) (λ language.
                then-Extends t _ _ _ _ (realms-Extends n n' [] le)
                  (λ realms. end-Extends t m _))))))

  -- What `session_read` does with the start of a file, it does with the whole.
  session_read-Grows :
      (salt : SessionId) (s : Bytes)
      → Grows t (session_read m salt s) (session_read m salt (s ++ t))
  unfolding session_read Extends
  session_read-Grows salt s =
      let le : length s ≤ length (s ++ t) = omega (arith, length-append s t) in
      then-Extends t (read_id m) (read_id m) _ _ id-Extends
        (λ id. do_session-Extends (suc (length s)) (suc (length (s ++ t))) salt id (omega arith)) s

tail-nil : (s t : Bytes) → s ++ t ≡ [] → t ≡ []
tail-nil [] t e = e
tail-nil (x ∷ s) t e = absurd (ground arith)

cut_short :
    (t : Bytes) (m : Machine) (salt : SessionId) (s : Bytes) (v : Session) (o : Outcome Session)
    → t ≢ []
    → session_read m salt (s ++ t) ≡ ok v []
    → Takes 0 s o
    → Grows t o (session_read m salt (s ++ t))
    → o ≡ failed end_of_file
cut_short t m salt s v (ok v' rest) more whole total e = absurd (more (tail-nil rest t (cc)))
cut_short t m salt s v (failed end_of_file) more whole total e = refl
cut_short t m salt s v (failed session_deserializer_error) more whole total e = cc
cut_short t m salt s v (failed undefined_view) more whole total e = cc
cut_short t m salt s v out_of_fuel more whole total e = absurd total

-- A session that has been written whole and is cut off anywhere, the start included, cannot be read:
-- `session_read` throws because the file has ended, and takes no part of it for a session. The
-- machine's numbers come back from their bytes, and the session is one that can be stored.
pub session_read-cut :
    (m : Machine) (laws : IsMachine m) (salt : SessionId) (session : Session) (s t : Bytes)
    → IsStoredSession m session
    → session_write m session ≡ some (s ++ t)
    → t ≢ []
    → session_read m salt s ≡ failed end_of_file
session_read-cut m laws salt session s t stored written more =
    cut_short t m salt s (reloaded salt session) (session_read m salt s) more
      (ap (session_read m salt) (sym (append-nil (s ++ t)))
        ∙ session_read-session_write m laws salt session (s ++ t) [] stored written)
      (session_read-Takes m salt s) (session_read-Grows t m salt s)
