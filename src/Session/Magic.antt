-- ===== src/Session/Magic.antt =====
-- src/bp/session/File.hxx: the magic numbers of a session file.
use cm4all_beng_proxy.Common.{ℕ}

abbrev pub file : ℕ
file = 2461362039

abbrev pub magic_session : ℕ
magic_session = 663845835

abbrev pub realm_session : ℕ
realm_session = 983957474

abbrev pub realm_session_old : ℕ
realm_session_old = 983957473

abbrev pub widget_session : ℕ
widget_session = 983957472

abbrev pub magic_cookie : ℕ
magic_cookie = 860919820

abbrev pub end_of_record : ℕ
end_of_record = 1588449078

abbrev pub end_of_list : ℕ
end_of_list = 1556616445
