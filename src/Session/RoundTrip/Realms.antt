-- ===== src/Session/RoundTrip/Realms.antt =====
-- The cookies and the realm sessions.
use cm4all_beng_proxy.Common.{
  ℕ, zero, suc, ◌^◌, ◌<◌, ◌≡◌, refl, sym, ap, false, some, List, [], ◌∷◌, ◌++◌, Bytes, append_assoc,
  append-nil, arith, All,
}
use cm4all_beng_proxy.Session.{
  Cookie, RealmSession, Realms, empty_set, c_str, add_cookie, emplace_realm,
}
use cm4all_beng_proxy.Session.Codec.{
  Machine, IsMachine, ok, ◌then_write◌, read32, write32, read_number, write_number, read_expiry,
  write_expiry, read_string, read_array, write_span, write_string,
}
use cm4all_beng_proxy.Session.Magic
use cm4all_beng_proxy.Session.Write.{
  write_widget_sessions, write_cookie, write_cookie_jar, write_realm_session, write_realms,
}
use cm4all_beng_proxy.Session.Read.{
  mark, view, read_widget_sessions, read_cookie, jar_by, read_cookie_jar, read_translate,
  read_realm_fields, read_realm_session, realms_by, read_realms,
}
use cm4all_beng_proxy.Session.RoundTrip.{
  Decodes, then-Decodes, first-Decodes, last-Decodes, IsClean, number-Decodes, expect-Decodes,
  key-Decodes, string-Decodes, span-Decodes,
}
use cm4all_beng_proxy.Session.RoundTrip.Keys.{
  IsAscending, Below, ascending-Below, widget_keys, realm_keys, emplace_realm-last,
  realm_keys-append,
}
use cm4all_beng_proxy.Session.RoundTrip.Widgets.{AreStored, magic_bytes, widgets-Decodes}

-- The jar after each cookie of a list has been pushed to its front, in turn.
abbrev pub pushed : List Cookie → List Cookie → List Cookie
pushed jar [] = jar
pushed jar (c ∷ cs) = pushed (c ∷ jar) cs

abbrev pub IsStoredCookie : ℕ → Cookie → Type 0
IsStoredCookie expiry_size c =
    IsClean c.name
    × IsClean c.value
    × IsClean c.domain
    × IsClean c.path
    × (c.expires < 256 ^ expiry_size)

pub record IsStoredRealm (expiry_size : ℕ) (r : RealmSession) : Type 0 where
  pub site_clean : IsClean r.site
  pub user_clean : IsClean r.user
  pub fits : r.user_expires < 256 ^ expiry_size
  pub widgets_stored : AreStored r.widgets
  pub widgets_order : IsAscending (widget_keys r.widgets)
  pub cookies_stored : All (IsStoredCookie expiry_size) r.cookies
  pub same_site_fits : r.session_cookie_same_site < 256

-- A realm session as it is read back: its cookies are in the opposite order.
abbrev pub reloaded_realm : RealmSession → RealmSession
reloaded_realm r = record r { cookies = pushed [] r.cookies }

abbrev pub reloaded_realms : Realms → Realms
reloaded_realms [] = []
reloaded_realms ((name, r) ∷ rest) = (name, reloaded_realm r) ∷ reloaded_realms rest

abbrev pub AreStoredRealms : ℕ → Realms → Type 0
AreStoredRealms expiry_size [] = Unit
AreStoredRealms expiry_size ((name, r) ∷ rest) =
    (c_str name ≡ name) × IsStoredRealm expiry_size r × AreStoredRealms expiry_size rest

module _ (m : Machine) (laws : IsMachine m) where
  cookie-Decodes :
      (n : ℕ) (c : Cookie)
      → IsStoredCookie m.expiry_size c
      → Decodes n (read_cookie m) (write_cookie m c) c
  unfolding read_cookie write_cookie
  cookie-Decodes n c (nc, vc, dc, pc, fits) =
      then-Decodes n (read_string m) _ (write_string m c.name) _ c.name c
        (string-Decodes m laws n c.name nc)
        (then-Decodes n (read_string m) _ (write_string m c.value) _ c.value c
          (string-Decodes m laws n c.value vc)
          (then-Decodes n (read_string m) _ (write_string m c.domain) _ c.domain c
            (string-Decodes m laws n c.domain dc)
            (then-Decodes n (read_string m) _ (write_string m c.path) _ c.path c
              (string-Decodes m laws n c.path pc)
              (then-Decodes n (read_expiry m) _ (write_expiry m c.expires) _ c.expires c
                (number-Decodes m laws n m.expiry_size c.expires fits)
                (expect-Decodes m laws n Magic.end_of_record c (omega arith))))))

  jar-Decodes :
      (n : ℕ) (jar cs : List Cookie)
      → All (IsStoredCookie m.expiry_size) cs
      → Decodes n (read_cookie_jar m n jar) (write_cookie_jar m cs) (pushed jar cs)
  unfolding read_cookie_jar write_cookie_jar jar_by mark add_cookie
  jar-Decodes zero jar cs stored = unfold Decodes in λ w rest e lt. absurd (omega arith)
  jar-Decodes (suc n) jar [] stored =
      last-Decodes (suc n) (read32 m) _ (write32 m Magic.end_of_list) Magic.end_of_list jar
        (number-Decodes m laws (suc n) 4 Magic.end_of_list (omega arith)) (λ s. refl)
  jar-Decodes (suc n) jar (c ∷ cs) (one, stored) =
      first-Decodes n (read32 m) _ (write32 m Magic.magic_cookie) _ Magic.magic_cookie
        (pushed (c ∷ jar) cs) (magic_bytes m laws Magic.magic_cookie)
        (number-Decodes m laws (suc n) 4 Magic.magic_cookie (omega arith))
        (then-Decodes n (read_cookie m) _ (write_cookie m c) (write_cookie_jar m cs) c
          (pushed (c ∷ jar) cs) (cookie-Decodes n c one) (jar-Decodes n (c ∷ jar) cs stored))

  realm-Decodes :
      (n : ℕ) (r : RealmSession)
      → IsStoredRealm m.expiry_size r
      → Decodes n
          (read_realm_session m n Magic.realm_session)
          (write_realm_session m r)
          (reloaded_realm r)
  unfolding read_realm_session read_realm_fields write_realm_session read_translate
  realm-Decodes n r v =
      let back = reloaded_realm r in
      then-Decodes n (read_string m) _ (write_string m r.site) _ r.site back
        (string-Decodes m laws n r.site v.site_clean)
        (then-Decodes n (read_array m) _ (write_span m r.translate) _ r.translate back
          (span-Decodes m laws n r.translate)
          (then-Decodes n (read_string m) _ (write_string m r.user) _ r.user back
            (string-Decodes m laws n r.user v.user_clean)
            (then-Decodes n (read_expiry m) _ (write_expiry m r.user_expires) _ r.user_expires back
              (number-Decodes m laws n m.expiry_size r.user_expires v.fits)
              (then-Decodes n (read_widget_sessions m n empty_set) _
                (write_widget_sessions m r.widgets) _ r.widgets back
                (widgets-Decodes m laws n empty_set r.widgets v.widgets_stored v.widgets_order)
                (then-Decodes n (read_cookie_jar m n []) _ (write_cookie_jar m r.cookies) _
                  (pushed [] r.cookies) back (jar-Decodes n [] r.cookies v.cookies_stored)
                  (then-Decodes n (read_number m 1) _ (write_number m 1 r.session_cookie_same_site)
                    _ r.session_cookie_same_site back
                    (number-Decodes m laws n 1 r.session_cookie_same_site
                      (omega (arith, v.same_site_fits)))
                    (expect-Decodes m laws n Magic.end_of_record back (omega arith))))))))

  realm_entry-Decodes :
      (n : ℕ) (acc : Realms) (name : Bytes) (r : RealmSession) (rest all : Realms)
      → c_str name ≡ name
      → IsStoredRealm m.expiry_size r
      → Decodes n
          (read_realms m n (emplace_realm name (reloaded_realm r) acc))
          (write_realms m rest)
          all
      → Decodes n
          (realms_by m false n Magic.realm_session (read_realms m n) acc)
          (write_span m (some name)
            then_write write_realm_session m r
            then_write write_realms m rest)
          all
  unfolding realms_by view
  realm_entry-Decodes n acc name r rest all clean one h =
      then-Decodes n (read_string m) _ (write_span m (some name)) _ (some name) all
        (key-Decodes m laws n name)
        (then-Decodes n _ _ (write_realm_session m r) (write_realms m rest) (reloaded_realm r) all
          (realm-Decodes n r one) (rw clean h))

  realm_keys_moved :
      (acc : Realms) (name : Bytes) (r : RealmSession) (rest : Realms)
      → IsAscending (realm_keys acc ++ name ∷ realm_keys rest)
      → IsAscending (realm_keys (acc ++ (name, r) ∷ []) ++ realm_keys rest)
  realm_keys_moved acc name r rest order =
      rw
        (
          realm_keys-append acc ((name, r) ∷ []),
          append_assoc (realm_keys acc) (name ∷ []) (realm_keys rest),
        )
        order

  realm_moved :
      (n : ℕ) (acc : Realms) (name : Bytes) (r : RealmSession) (rest tail : Realms)
      → Below (realm_keys acc) name
      → Decodes n
          (read_realms m n (acc ++ (name, r) ∷ []))
          (write_realms m rest)
          ((acc ++ (name, r) ∷ []) ++ tail)
      → Decodes n
          (read_realms m n (emplace_realm name r acc))
          (write_realms m rest)
          (acc ++ (name, r) ∷ tail)
  realm_moved n acc name r rest tail below h =
      rw (emplace_realm-last name r acc below) (rw (append_assoc acc ((name, r) ∷ []) tail) at h)

  pub realms-Decodes :
      (n : ℕ) (acc rs : Realms)
      → AreStoredRealms m.expiry_size rs
      → IsAscending (realm_keys acc ++ realm_keys rs)
      → Decodes n (read_realms m n acc) (write_realms m rs) (acc ++ reloaded_realms rs)
  unfolding read_realms write_realms realms_by
  realms-Decodes zero acc rs stored order = unfold Decodes in λ w rest e lt. absurd (omega arith)
  realms-Decodes (suc n) acc [] stored order =
      last-Decodes (suc n) (read32 m) _ (write32 m Magic.end_of_list) Magic.end_of_list (acc ++ [])
        (number-Decodes m laws (suc n) 4 Magic.end_of_list (omega arith))
        (λ s. ap (λ all. ok all s) (sym (append-nil acc)))
  realms-Decodes (suc n) acc ((name, r) ∷ rest) (clean, one, stored) order =
      first-Decodes n (read32 m) _ (write32 m Magic.realm_session) _ Magic.realm_session
        (acc ++ (name, reloaded_realm r) ∷ reloaded_realms rest)
        (magic_bytes m laws Magic.realm_session)
        (number-Decodes m laws (suc n) 4 Magic.realm_session (omega arith))
        (realm_entry-Decodes n acc name r rest
          (acc ++ (name, reloaded_realm r) ∷ reloaded_realms rest) clean one
          (realm_moved n acc name (reloaded_realm r) rest (reloaded_realms rest)
            (ascending-Below (realm_keys acc) name (realm_keys rest) order)
            (realms-Decodes n (acc ++ (name, reloaded_realm r) ∷ []) rest stored
              (realm_keys_moved acc name (reloaded_realm r) rest order))))
