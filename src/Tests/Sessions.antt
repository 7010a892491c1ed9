-- ===== src/Tests/Sessions.antt =====
-- A session with two cookies, on a machine that stores numbers with the low byte first.
use cm4all_beng_proxy.Common.{
  ℕ, zero, suc, Bool, true, Option, none, some, ltb, take, drop, take-append-drop, All, ◌++◌, ◌≢◌,
  ◌+◌, ◌*◌, ◌/◌, ◌%◌, ◌^◌, ◌<◌, ◌≡◌, refl, List, [], ◌∷◌, Bytes, length, arith,
}
use cm4all_beng_proxy.Session.{
  widget, Widgets, empty_set, entry, Cookie, RealmSession, SessionId, Session, less, c_str,
}
use cm4all_beng_proxy.Session.Codec.{
  Machine, IsMachine, end_of_file, ok, failed, write_number, write_bool, write_span, write_string,
}
use cm4all_beng_proxy.Session.Write.{
  session_write, write_id, write_realms, write_realm_session, write_cookie_jar, write_cookie,
  write_widget_session,
}
use cm4all_beng_proxy.Session.Read.{session_read}
use cm4all_beng_proxy.Session.Save.{session_manager_save, load, returned, visit}
use cm4all_beng_proxy.Session.RoundTrip.Widgets.{AreStored}
use cm4all_beng_proxy.Session.RoundTrip.Realms.{IsStoredCookie, IsStoredRealm}
use cm4all_beng_proxy.Session.RoundTrip.Whole.{
  IsStoredSession, reloaded, session_read-session_write,
}
use cm4all_beng_proxy.Session.RoundTrip.File.{inserted, load-session_manager_save}
use cm4all_beng_proxy.Session.Loaded.{HasAdded, load-HasAdded}
use cm4all_beng_proxy.Session.Truncated.Whole.{session_read-cut}

abbrev to_bytes : ℕ → ℕ → Bytes
to_bytes zero value = []
to_bytes (suc size) value = (value % 256) ∷ to_bytes size (value / 256)

abbrev from_bytes : Bytes → ℕ
from_bytes [] = 0
from_bytes (x ∷ s) = x + 256 * from_bytes s

length-to_bytes : (size value : ℕ) → length (to_bytes size value) ≡ size
length-to_bytes zero value = refl
length-to_bytes (suc size) value = omega (arith, length-to_bytes size (value / 256))

from_bytes-to_bytes :
    (size value : ℕ) → value < 256 ^ size → from_bytes (to_bytes size value) ≡ value
from_bytes-to_bytes zero value lt = omega arith
from_bytes-to_bytes (suc size) value lt =
    omega (arith, from_bytes-to_bytes size (value / 256) (grind arith))

abbrev little_endian : Machine
little_endian = record {
  to_bytes = to_bytes;
  from_bytes = from_bytes;
  session_size = 168;
  expiry_size = 8;
}

little_endian-IsMachine : IsMachine little_endian
little_endian-IsMachine = record {
  length-to_bytes = length-to_bytes;
  from_bytes-to_bytes = from_bytes-to_bytes;
  small = omega arith;
}

abbrev pub first_cookie : Cookie
first_cookie = record {
  name = some (b'a' ∷ []);
  value = some (b'1' ∷ []);
  domain = some (b'd' ∷ []);
  path = none;
  expires = 70000;
}

abbrev menu : Widgets
menu =
    entry (b'm' ∷ [])
      (widget (entry (b'n' ∷ []) (widget empty_set none (some [])) empty_set) (some (b'/' ∷ []))
        none)
      empty_set

abbrev realm : RealmSession
realm = record {
  site = some (b's' ∷ []);
  translate = some (0 ∷ 7 ∷ []);
  user = none;
  user_expires = 0;
  widgets = menu;
  cookies = first_cookie ∷ record first_cookie { name = some (b'b' ∷ []); path = some [] } ∷ [];
  session_cookie_same_site = 1;
}

abbrev pub session : Session
session = record {
  id = record { low = 258; high = 3 };
  csrf_salt = record { low = 4; high = 5 };
  expires = 1000000;
  counter = 6;
  cookie_received = true;
  translate = none;
  recover = some (b'u' ∷ []);
  attach = none;
  external_manager = none;
  language = some (b'd' ∷ b'e' ∷ []);
  realms = (b'r' ∷ [], realm) ∷ (b'r' ∷ b'2' ∷ [], record realm { cookies = [] }) ∷ [];
}

abbrev pub old_session : Session
old_session = record session { expires = 10; realms = [] }

abbrev is_expired : ℕ → Bool
is_expired expires = ltb expires 100

abbrev salts : ℕ → SessionId
salts i = record { low = i; high = 9 }

abbrev bytes_of : Option Bytes → Bytes
bytes_of none = []
bytes_of (some w) = w

abbrev session_bytes : Bytes
session_bytes = bytes_of (session_write little_endian session)

written : session_write little_endian session ≡ some session_bytes
unfolding session_write write_id write_realms write_realm_session write_cookie_jar write_cookie
    write_widget_session write_number write_bool write_span write_string c_str
written = refl

abbrev file_bytes : Bytes
file_bytes =
    bytes_of
      (session_manager_save little_endian (λ expires. ltb expires 5) (session ∷ old_session ∷ []))

saved :
    session_manager_save little_endian (λ expires. ltb expires 5) (session ∷ old_session ∷ [])
    ≡ some file_bytes
unfolding visit session_manager_save session_write write_id write_realms write_realm_session
    write_cookie_jar write_cookie write_widget_session write_number write_bool write_span
    write_string c_str
saved = refl

menu-AreStored : AreStored menu
unfolding AreStored c_str
menu-AreStored = (refl, ((refl, (tt, tt, tt, refl), tt), (tt, tt), refl, tt), tt)

realm-IsStored :
    (cs : List Cookie) → All (IsStoredCookie 8) cs → IsStoredRealm 8 (record realm { cookies = cs })
unfolding c_str
realm-IsStored cs all = record {
  site_clean = refl;
  user_clean = tt;
  fits = omega arith;
  widgets_stored = menu-AreStored;
  widgets_order = (tt, tt);
  cookies_stored = all;
  same_site_fits = omega arith;
}

cookies-AreStored : All (IsStoredCookie 8) realm.cookies
unfolding c_str
cookies-AreStored =
    ((refl, refl, refl, tt, omega arith), ((refl, refl, refl, refl, omega arith), tt))

session-IsStored : IsStoredSession little_endian session
unfolding c_str less
session-IsStored = record {
  low_fits = omega arith;
  high_fits = omega arith;
  expires_fits = omega arith;
  counter_fits = omega arith;
  language_clean = refl;
  realms_stored =
      (refl, realm-IsStored realm.cookies cookies-AreStored, (refl, realm-IsStored [] tt, tt));
  realms_order = ((refl, tt), (tt, tt));
}

old_session-IsStored : IsStoredSession little_endian old_session
unfolding c_str
old_session-IsStored = record {
  low_fits = omega arith;
  high_fits = omega arith;
  expires_fits = omega arith;
  counter_fits = omega arith;
  language_clean = refl;
  realms_stored = tt;
  realms_order = tt;
}

session_read-session_write_example :
    session_read little_endian (salts 1) (session_bytes ++ 1 ∷ 2 ∷ [])
    ≡ ok (reloaded (salts 1) session) (1 ∷ 2 ∷ [])
session_read-session_write_example =
    session_read-session_write little_endian little_endian-IsMachine (salts 1) session session_bytes
      (1 ∷ 2 ∷ []) session-IsStored written

load-session_manager_save_example :
    load little_endian is_expired salts (session ∷ []) (file_bytes ++ []) ≡ (
      inserted is_expired salts 0
          (session ∷ [])
          (visit (λ expires. ltb expires 5) (session ∷ old_session ∷ [])),
      returned true,
    )
unfolding visit
load-session_manager_save_example =
    load-session_manager_save little_endian little_endian-IsMachine is_expired salts
      (λ expires. ltb expires 5) (session ∷ []) (session ∷ old_session ∷ []) file_bytes []
      (session-IsStored, (old_session-IsStored, tt)) saved

load-HasAdded_example :
    HasAdded is_expired
      (session ∷ [])
      (load little_endian is_expired salts (session ∷ []) (take 100 file_bytes))
load-HasAdded_example =
    load-HasAdded little_endian is_expired salts (session ∷ []) (take 100 file_bytes)

more_bytes : drop 90 session_bytes ≢ []
unfolding session_write write_id write_realms write_realm_session write_cookie_jar write_cookie
    write_widget_session write_number write_bool write_span write_string c_str
more_bytes e = cc

session_read-cut_example :
    session_read little_endian (salts 1) (take 90 session_bytes) ≡ failed end_of_file
session_read-cut_example =
    session_read-cut little_endian little_endian-IsMachine (salts 1) session (take 90 session_bytes)
      (drop 90 session_bytes) session-IsStored (rw (take-append-drop 90 session_bytes) written)
      more_bytes
