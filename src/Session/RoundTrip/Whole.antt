-- ===== src/Session/RoundTrip/Whole.antt =====
-- A whole session of a file.
use cm4all_beng_proxy.Common.{
  none, ℕ, suc, ◌^◌, ◌<◌, ◌≡◌, refl, some, [], ◌++◌, Bytes, length, arith,
}
use cm4all_beng_proxy.Session.{SessionId, Session}
use cm4all_beng_proxy.Session.Codec.{
  Machine, IsMachine, ok, ◌then_write◌, write32, read_number, write_number, read_bool, write_bool,
  read_expiry, write_expiry, read_string, read_array, write_span, write_string,
}
use cm4all_beng_proxy.Session.Magic
use cm4all_beng_proxy.Session.Write.{write_realms, write_id, session_write}
use cm4all_beng_proxy.Session.Read.{read_realms, read_id, do_read_session, session_read}
use cm4all_beng_proxy.Session.RoundTrip.{
  Decodes, then-Decodes, last-Decodes, IsClean, number-Decodes, bool-Decodes, expect-Decodes,
  string-Decodes, span-Decodes,
}
use cm4all_beng_proxy.Session.RoundTrip.Keys.{IsAscending, realm_keys}
use cm4all_beng_proxy.Session.RoundTrip.Realms.{reloaded_realms, AreStoredRealms, realms-Decodes}

-- What a session must be like to come back from the file: numbers fit their size, strings and keys
-- have no null byte, the maps are in the order of their keys.
pub record IsStoredSession (m : Machine) (s : Session) : Type 0 where
  pub low_fits : s.id.low < 256 ^ 8
  pub high_fits : s.id.high < 256 ^ 8
  pub expires_fits : s.expires < 256 ^ m.expiry_size
  pub counter_fits : s.counter < 256 ^ 4
  pub language_clean : IsClean s.language
  pub realms_stored : AreStoredRealms m.expiry_size s.realms
  pub realms_order : IsAscending (realm_keys s.realms)

-- The session as it is read back, with a new secret, and without `recover`, `attach` and
-- `external_manager`, which are not in the file.
abbrev pub reloaded : SessionId → Session → Session
reloaded csrf_salt s = record s {
  csrf_salt = csrf_salt;
  recover = none;
  attach = none;
  external_manager = none;
  realms = reloaded_realms s.realms;
}

module _ (m : Machine) (laws : IsMachine m) where
  id-Decodes :
      (n : ℕ) (id : SessionId)
      → id.low < 256 ^ 8
      → id.high < 256 ^ 8
      → Decodes n (read_id m) (write_id m id) id
  unfolding read_id write_id
  id-Decodes n id l h =
      then-Decodes n (read_number m 8) _ (write_number m 8 id.low) _ id.low id
        (number-Decodes m laws n 8 id.low l)
        (last-Decodes n (read_number m 8) _ (write_number m 8 id.high) id.high id
          (number-Decodes m laws n 8 id.high h) (λ s. refl))

  fields-Decodes :
      (n : ℕ) (salt : SessionId) (s : Session)
      → IsStoredSession m s
      → Decodes n
          (do_read_session m n salt s.id)
          (write_expiry m s.expires
            then_write write_number m 4 s.counter
            then_write write_bool m s.cookie_received
            then_write write_span m s.translate
            then_write write_string m s.language
            then_write write_realms m s.realms
            then_write write32 m Magic.end_of_record)
          (reloaded salt s)
  unfolding do_read_session
  fields-Decodes n salt s v =
      let back = reloaded salt s in
      then-Decodes n (read_expiry m) _ (write_expiry m s.expires) _ s.expires back
        (number-Decodes m laws n m.expiry_size s.expires v.expires_fits)
        (then-Decodes n (read_number m 4) _ (write_number m 4 s.counter) _ s.counter back
          (number-Decodes m laws n 4 s.counter v.counter_fits)
          (then-Decodes n (read_bool m) _ (write_bool m s.cookie_received) _ s.cookie_received back
            (bool-Decodes m laws n s.cookie_received)
            (then-Decodes n (read_array m) _ (write_span m s.translate) _ s.translate back
              (span-Decodes m laws n s.translate)
              (then-Decodes n (read_string m) _ (write_string m s.language) _ s.language back
                (string-Decodes m laws n s.language v.language_clean)
                (then-Decodes n (read_realms m n []) _ (write_realms m s.realms) _
                  (reloaded_realms s.realms) back
                  (realms-Decodes m laws n [] s.realms v.realms_stored v.realms_order)
                  (expect-Decodes m laws n Magic.end_of_record back (omega arith)))))))

  -- Wherever the bytes that `session_write` has written for a session stand in a file, `session_read`
  -- takes exactly them and gives the session back, with the new secret, without its recover, its attach
  -- and its external manager, and with the cookies of each realm in the opposite order. The machine's numbers come back from their bytes; the session's
  -- numbers fit their size, its strings and keys have no null byte, and its maps are ordered.
  pub session_read-session_write :
      (salt : SessionId) (s : Session) (w rest : Bytes)
      → IsStoredSession m s
      → session_write m s ≡ some w
      → session_read m salt (w ++ rest) ≡ ok (reloaded salt s) rest
  unfolding session_read session_write Decodes
  session_read-session_write salt s w rest v e =
      let n = suc (length (w ++ rest)) in
      then-Decodes n (read_id m) (do_read_session m n salt) (write_id m s.id) _ s.id
        (reloaded salt s) (id-Decodes n s.id v.low_fits v.high_fits) (fields-Decodes n salt s v) w
        rest e (omega arith)
