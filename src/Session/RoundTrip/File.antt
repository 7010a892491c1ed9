-- ===== src/Session/RoundTrip/File.antt =====
-- A file of sessions that is saved and loaded.
use cm4all_beng_proxy.Common.{
  ℕ, zero, suc, ◌+◌, ◌<◌, ◌≡◌, refl, ap, ◌∙◌, Bool, true, Option, none, some, List, [], ◌∷◌, ◌++◌,
  Bytes, length, arith, append_assoc, length-append, if◌then◌else◌, All, ==_refl,
}
use cm4all_beng_proxy.Session.{SessionId, Session}
use cm4all_beng_proxy.Session.Codec.{
  Machine, IsMachine, ok, ◌then_write◌, read32, write32, expect32,
}
use cm4all_beng_proxy.Session.Magic
use cm4all_beng_proxy.Session.Write.{session_write}
use cm4all_beng_proxy.Session.Read.{mark}
use cm4all_beng_proxy.Session.Save.{
  returned, save_all, session_write_file_header, session_manager_save, visit,
  session_read_file_header, after_session, by_mark, after_magic, load_loop, after_file_header, load,
}
use cm4all_beng_proxy.Session.RoundTrip.{read32-write32}
use cm4all_beng_proxy.Session.RoundTrip.Widgets.{magic_bytes}
use cm4all_beng_proxy.Session.RoundTrip.Whole.{
  IsStoredSession, reloaded, session_read-session_write,
}

-- What a list of sessions becomes: the expired ones are dropped, the others are inserted behind
-- `sessions`, each with the next secret.
abbrev pub inserted : (ℕ → Bool) → (ℕ → SessionId) → ℕ → List Session → List Session → List Session
inserted is_expired salts i sessions [] = sessions
inserted is_expired salts i sessions (s ∷ ss) =
    inserted is_expired salts (i + 1)
      (if is_expired s.expires then sessions else sessions ++ reloaded (salts i) s ∷ []) ss

-- Two writes in a row that both succeed.
pub parts :
    (o p : Option Bytes) (w : Bytes)
    → (o then_write p) ≡ some w
    → (x : Bytes) × (y : Bytes) × (o ≡ some x) × (p ≡ some y) × (w ≡ x ++ y)
parts none p w e = absurd (ground arith)
parts (some x) none w e = absurd (ground arith)
parts (some x) (some y) w e = (x, y, refl, refl, ground arith)

module _ (m : Machine) (laws : IsMachine m) (is_expired : ℕ → Bool) (salts : ℕ → SessionId) where
  load_loop-save_all :
      (fuel i : ℕ) (sessions ss : List Session) (w rest : Bytes)
      → All (IsStoredSession m) ss
      → save_all m ss ≡ some w
      → length (w ++ rest) < fuel
      → load_loop m is_expired salts fuel i sessions (w ++ rest)
        ≡ (inserted is_expired salts i sessions ss, returned true)
  unfolding load_loop after_magic by_mark after_session save_all mark
  load_loop-save_all zero i sessions ss w rest stored e lt = absurd (omega arith)
  load_loop-save_all (suc fuel) i sessions [] w rest stored e lt =
      ap (after_magic m is_expired salts (load_loop m is_expired salts fuel) i sessions)
        (read32-write32 m laws Magic.end_of_list w rest (omega arith) e)
  load_loop-save_all (suc fuel) i sessions (s ∷ ss) w rest (one, stored) e lt =
      let (x, yz, ex, eyz, is) = parts (write32 m Magic.magic_session) _ w e in
      let (y, z, ey, ez, is') = parts (session_write m s) (save_all m ss) yz eyz in
      let regroup : w ++ rest ≡ x ++ (y ++ (z ++ rest)) =
        ap (λ t. t ++ rest) is
        ∙ append_assoc x yz rest
        ∙ ap (◌++◌ x) (ap (λ t. t ++ rest) is' ∙ append_assoc y z rest) in
      ap
        (λ t.
          after_magic m is_expired salts (load_loop m is_expired salts fuel) i sessions
            (read32 m t))
        regroup
      ∙ ap (after_magic m is_expired salts (load_loop m is_expired salts fuel) i sessions)
          (read32-write32 m laws Magic.magic_session x (y ++ (z ++ rest)) (omega arith) ex)
      ∙ ap (after_session m is_expired salts (load_loop m is_expired salts fuel) i sessions)
          (session_read-session_write m laws (salts i) s y (z ++ rest) one ey)
      ∙ load_loop-save_all fuel (i + 1) _ ss z rest stored ez (
          omega (
            arith,
            ap length regroup,
            length-append x (y ++ (z ++ rest)),
            length-append y (z ++ rest),
            magic_bytes m laws Magic.magic_session x ex,
          ))

  header_read :
      (w rest : Bytes)
      → session_write_file_header m ≡ some w
      → session_read_file_header m (w ++ rest) ≡ ok tt rest
  unfolding session_read_file_header session_write_file_header expect32
  header_read w rest e =
      let (x, y, ex, ey, is) = parts (write32 m Magic.file) (write32 m m.session_size) w e in
      let regroup : w ++ rest ≡ x ++ (y ++ rest) = ap (λ t. t ++ rest) is ∙ append_assoc x y rest in
      rw
        (
          regroup,
          read32-write32 m laws Magic.file x (y ++ rest) (omega arith) ex,
          read32-write32 m laws m.session_size y rest laws.small ey,
          ==_refl m.session_size,
        )
        refl

  -- A file that `session_manager_save` has written is read to its end, whatever follows it: the
  -- sessions that had not expired when it was written, and still have not, are inserted behind those
  -- of the manager, in the order of the file, each with a new secret, without its recover, its attach
  -- and its external manager, and with the cookies of its realms in the opposite order, and the load reports success. The machine's numbers come back from
  -- their bytes, and each session that is written has numbers that fit, strings and keys without null
  -- bytes, and ordered maps.
  pub load-session_manager_save :
      (was_expired : ℕ → Bool) (sessions ss : List Session) (w rest : Bytes)
      → All (IsStoredSession m) (visit was_expired ss)
      → session_manager_save m was_expired ss ≡ some w
      → load m is_expired salts sessions (w ++ rest)
        ≡ (inserted is_expired salts 0 sessions (visit was_expired ss), returned true)
  unfolding load after_file_header session_manager_save
  load-session_manager_save was_expired sessions ss w rest stored e =
      let (x, y, ex, ey, is) =
        parts (session_write_file_header m) (save_all m (visit was_expired ss)) w e in
      let regroup : w ++ rest ≡ x ++ (y ++ rest) = ap (λ t. t ++ rest) is ∙ append_assoc x y rest in
      ap (after_file_header m is_expired salts sessions (suc (length (w ++ rest))))
        (ap (session_read_file_header m) regroup ∙ header_read x (y ++ rest) ex)
      ∙ load_loop-save_all (suc (length (w ++ rest))) 0 sessions (visit was_expired ss) y rest
          stored ey (omega (arith, ap length regroup, length-append x (y ++ rest)))
