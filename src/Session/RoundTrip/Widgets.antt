-- ===== src/Session/RoundTrip/Widgets.antt =====
-- The widget sessions, which hold lists of themselves.
use cm4all_beng_proxy.Common.{
  ℕ, zero, suc, ◌<◌, ◌≡◌, sym, ap, Option, some, [], ◌∷◌, ◌++◌, Bytes, length, append_assoc, arith,
}
use cm4all_beng_proxy.Session.{
  WidgetSession, widget, Widgets, empty_set, entry, c_str, emplace_widget,
}
use cm4all_beng_proxy.Session.Codec.{
  Machine, IsMachine, ok, Reader, ◌then_write◌, read32, write32, write_number, read_string,
  write_span, write_string,
}
use cm4all_beng_proxy.Session.Magic
use cm4all_beng_proxy.Session.Write.{write_widget_session, write_widget_sessions}
use cm4all_beng_proxy.Session.Read.{
  mark, view, do_read_widget_session, read_widget_entry, widgets_by, read_widget_sessions,
}
use cm4all_beng_proxy.Session.RoundTrip.{
  Decodes, then-Decodes, first-Decodes, last-Decodes, IsClean, number-Decodes, expect-Decodes,
  key-Decodes, string-Decodes,
}
use cm4all_beng_proxy.Session.RoundTrip.Keys.{
  IsAscending, Below, ascending-Below, widget_keys, append_widgets, emplace_widget-last,
  append_widgets_assoc, append_widgets_empty, widget_keys-append,
}

-- What can be saved: texts without null bytes, and sets in the order of their keys.
unfoldable mutual
  pub IsStored : WidgetSession → Type 0
  IsStored (widget children path_info query_string) =
      AreStored children
      × IsAscending (widget_keys children)
      × IsClean path_info
      × IsClean query_string

  pub AreStored : Widgets → Type 0
  AreStored empty_set = Unit
  AreStored (entry id ws rest) = (c_str id ≡ id) × IsStored ws × AreStored rest

module _ (m : Machine) (laws : IsMachine m) where
  pub magic_bytes : (magic : ℕ) (x : Bytes) → write32 m magic ≡ some x → 0 < length x
  unfolding write_number
  magic_bytes magic x e =
      let is : x ≡ m.to_bytes 4 magic = ground arith in
      omega (arith, ap length is, laws.length-to_bytes 4 magic)

  session-Decodes :
      (n : ℕ) (read_children : Reader Widgets) (children : Widgets) (p q : Option Bytes)
      → IsClean p
      → IsClean q
      → Decodes n read_children (write_widget_sessions m children) children
      → Decodes n
          (do_read_widget_session m read_children)
          (write_widget_session m (widget children p q))
          (widget children p q)
  unfolding do_read_widget_session write_widget_session
  session-Decodes n read_children children p q cp cq h =
      then-Decodes n _ _ (write_widget_sessions m children) _ children (widget children p q) h (
        then-Decodes n _ _ (write_string m p) _ p (widget children p q)
          (string-Decodes m laws n p cp)
          (then-Decodes n _ _ (write_string m q) _ q (widget children p q)
            (string-Decodes m laws n q cq)
            (expect-Decodes m laws n Magic.end_of_record (widget children p q) (omega arith))))

  entry-Decodes :
      (n : ℕ) (read_children : Reader Widgets) (next : Widgets → Reader Widgets) (acc : Widgets)
      (id : Bytes) (ws : WidgetSession) (rest all : Widgets)
      → c_str id ≡ id
      → Decodes n (do_read_widget_session m read_children) (write_widget_session m ws) ws
      → Decodes n (next (emplace_widget id ws acc)) (write_widget_sessions m rest) all
      → Decodes n
          (read_widget_entry m read_children next acc)
          (write_span m (some id)
            then_write write_widget_session m ws
            then_write write_widget_sessions m rest)
          all
  unfolding read_widget_entry view
  entry-Decodes n read_children next acc id ws rest all clean h g =
      then-Decodes n (read_string m) _ (write_span m (some id)) _ (some id) all
        (key-Decodes m laws n id)
        (then-Decodes n _ _ (write_widget_session m ws) (write_widget_sessions m rest) ws all h
          (rw clean g))

  keys_moved :
      (acc : Widgets) (id : Bytes) (w : WidgetSession) (rest : Widgets)
      → IsAscending (widget_keys acc ++ id ∷ widget_keys rest)
      → IsAscending (widget_keys (append_widgets acc (entry id w empty_set)) ++ widget_keys rest)
  keys_moved acc id w rest order =
      rw
        (
          widget_keys-append acc (entry id w empty_set),
          append_assoc (widget_keys acc) (id ∷ []) (widget_keys rest),
        )
        order

  moved :
      (n : ℕ) (acc : Widgets) (id : Bytes) (w : WidgetSession) (rest : Widgets)
      → Below (widget_keys acc) id
      → Decodes n
          (read_widget_sessions m n (append_widgets acc (entry id w empty_set)))
          (write_widget_sessions m rest)
          (append_widgets (append_widgets acc (entry id w empty_set)) rest)
      → Decodes n
          (read_widget_sessions m n (emplace_widget id w acc))
          (write_widget_sessions m rest)
          (append_widgets acc (entry id w rest))
  moved n acc id w rest below h =
      rw (emplace_widget-last id w acc below)
        (rw (append_widgets_assoc acc (entry id w empty_set) rest) at h)

  -- the rest of a list, behind the entries that have been read
  pub widgets-Decodes :
      (n : ℕ) (acc ws : Widgets)
      → AreStored ws
      → IsAscending (widget_keys acc ++ widget_keys ws)
      → Decodes n
          (read_widget_sessions m n acc)
          (write_widget_sessions m ws)
          (append_widgets acc ws)
  unfolding read_widget_sessions write_widget_sessions widgets_by mark AreStored IsStored
  widgets-Decodes zero acc ws stored order = unfold Decodes in λ w rest e lt. absurd (omega arith)
  widgets-Decodes (suc n) acc empty_set stored order =
      last-Decodes (suc n) (read32 m) _ (write32 m Magic.end_of_list) Magic.end_of_list
        (append_widgets acc empty_set)
        (number-Decodes m laws (suc n) 4 Magic.end_of_list (omega arith))
        (λ s. ap (λ all. ok all s) (sym (append_widgets_empty acc)))
  widgets-Decodes (suc n) acc (entry id (widget children p q) rest)
        (clean, (inner, inner_order, cp, cq), stored) order =
      first-Decodes n (read32 m) _ (write32 m Magic.widget_session) _ Magic.widget_session
        (append_widgets acc (entry id (widget children p q) rest))
        (magic_bytes Magic.widget_session)
        (number-Decodes m laws (suc n) 4 Magic.widget_session (omega arith))
        (entry-Decodes n (read_widget_sessions m n empty_set) (read_widget_sessions m n) acc id
          (widget children p q) rest (append_widgets acc (entry id (widget children p q) rest))
          clean
          (session-Decodes n (read_widget_sessions m n empty_set) children p q cp cq
            (widgets-Decodes n empty_set children inner inner_order))
          (moved n acc id (widget children p q) rest
            (ascending-Below (widget_keys acc) id (widget_keys rest) order)
            (widgets-Decodes n (append_widgets acc (entry id (widget children p q) empty_set)) rest
              stored (keys_moved acc id (widget children p q) rest order))))
