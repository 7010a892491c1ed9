-- ===== src/Session/Save.antt =====
-- src/bp/session/Save.cxx: the file of all sessions. The manager's container is the list of the
-- sessions that have been inserted, in their order; `is_expired` is IsExpired() at the time of the
-- call, and `salts` are the secrets that the random generator returns, in turn.
use cm4all_beng_proxy.Common.{
  ℕ, zero, suc, ◌+◌, Bool, true, false, Option, List, [], ◌∷◌, ◌++◌, Bytes, length, if◌then◌else◌,
}
use cm4all_beng_proxy.Session.{SessionId, Session}
use cm4all_beng_proxy.Session.Codec.{
  Machine, Fault, Outcome, ok, failed, out_of_fuel, Reader, ◌>>◌, ◌then_write◌, read32, write32,
  expect32,
}
use cm4all_beng_proxy.Session.Magic
use cm4all_beng_proxy.Session.Write.{session_write}
use cm4all_beng_proxy.Session.Read.{Mark, at_end, at_item, corrupt, mark, session_read}

-- How `Load` ends: it returns, or it is left by a fault, which is an exception or what is undefined;
-- what has been inserted stays.
pub data Ending : Type 0 where
  returned : Bool → Ending
  left_by : Fault → Ending
  stuck : Ending

-- `SessionManager::Visit`: the sessions that the callback gets, in turn
unfoldable pub visit : (ℕ → Bool) → List Session → List Session
visit was_expired [] = []
visit was_expired (s ∷ ss) =
    let rest = visit was_expired ss in if was_expired s.expires then rest else s ∷ rest

module _ (m : Machine) where
  unfoldable pub session_write_file_header : Option Bytes
  session_write_file_header = write32 m Magic.file then_write write32 m m.session_size

  -- `session_save_callback`, for each session that is visited, and the tail
  unfoldable pub save_all : List Session → Option Bytes
  save_all [] = write32 m Magic.end_of_list
  save_all (s ∷ ss) =
      write32 m Magic.magic_session then_write session_write m s then_write save_all ss

  -- `was_expired` is IsExpired() at the time of `Visit`
  unfoldable pub session_manager_save : (ℕ → Bool) → List Session → Option Bytes
  unfolding save_all session_write_file_header visit
  session_manager_save was_expired sessions =
      session_write_file_header then_write save_all (visit was_expired sessions)

  unfoldable pub session_read_file_header : Reader (Unit {0})
  session_read_file_header = do expect32 m Magic.file; expect32 m m.session_size

  module _ (is_expired : ℕ → Bool) (salts : ℕ → SessionId) where
    -- The loop of `Load`, in pieces: `next` makes the rounds to come, with the number of secrets
    -- used, the sessions inserted so far, and the rest of the file.
    abbrev pub Rounds : Type 0
    Rounds = ℕ → List Session → Bytes → List Session × Ending

    unfoldable pub after_session :
        Rounds → ℕ → List Session → Outcome Session → List Session × Ending
    after_session next i sessions (ok s rest) =
        next (i + 1) (if is_expired s.expires then sessions else sessions ++ s ∷ []) rest
    after_session next i sessions (failed e) = (sessions, left_by e)
    after_session next i sessions out_of_fuel = (sessions, stuck)

    unfoldable pub by_mark : Rounds → ℕ → List Session → Bytes → Mark → List Session × Ending
    unfolding after_session
    by_mark next i sessions s at_end = (sessions, returned true)
    by_mark next i sessions s corrupt = (sessions, returned false)
    by_mark next i sessions s at_item = after_session next i sessions (session_read m (salts i) s)

    unfoldable pub after_magic : Rounds → ℕ → List Session → Outcome ℕ → List Session × Ending
    unfolding by_mark
    after_magic next i sessions (ok magic rest) =
        by_mark next i sessions rest (mark Magic.magic_session magic)
    after_magic next i sessions (failed e) = (sessions, left_by e)
    after_magic next i sessions out_of_fuel = (sessions, stuck)

    unfoldable pub load_loop : ℕ → Rounds
    unfolding after_magic
    load_loop zero i sessions s = (sessions, stuck)
    load_loop (suc fuel) i sessions s = after_magic (load_loop fuel) i sessions (read32 m s)

    unfoldable pub after_file_header : List Session → ℕ → Outcome (Unit {0}) → List Session × Ending
    unfolding load_loop
    after_file_header sessions fuel (ok u rest) = load_loop fuel 0 sessions rest
    after_file_header sessions fuel (failed e) = (sessions, left_by e)
    after_file_header sessions fuel out_of_fuel = (sessions, stuck)

    -- `SessionManager::Load`; each round of its loop reads a magic number.
    unfoldable pub load : List Session → Bytes → List Session × Ending
    unfolding after_file_header session_read_file_header
    load sessions s = after_file_header sessions (suc (length s)) (session_read_file_header s)
