-- ===== src/Session/Attach/Merge.antt =====
-- Two sets of widget sessions that are merged.
use cm4all_beng_proxy.Common.{
  ◌≡◌, refl, sym, ap, ◌∙◌, Option, none, some, List, [], ◌∷◌, Bytes, Bool-cases, inl, inr,
}
use cm4all_beng_proxy.Session.{Text, WidgetSession, widget, Widgets, empty_set, entry, less}
use cm4all_beng_proxy.Session.Attach.{
  insert_widget, find_widget, attach_set, attach_widget, is_some,
}
use cm4all_beng_proxy.Session.Attach.Order.{
  less_total, Above, find_widget-Above, insert_widget-IsAscending, find_widget-insert_self,
  find_widget-insert_other, put_in, Above-trans,
}
use cm4all_beng_proxy.Session.RoundTrip.Keys.{IsAscending, widget_keys}

-- What the merged set has under a key that the source has as `src` and the destination as `dest`.
abbrev merged : Option WidgetSession → Option WidgetSession → Option WidgetSession
merged none dest = dest
merged (some w) dest = some (put_in w (attach_widget w) dest)

merged_step :
    (j id : Bytes) (ws : WidgetSession) (src dest : Widgets)
    → Above id (widget_keys src)
    → merged (find_widget j src) (find_widget j (insert_widget id ws (attach_widget ws) dest))
      ≡ merged (find_widget j (entry id ws src)) (find_widget j dest)
unfolding find_widget
merged_step j id ws src dest above = elim (Bool-cases (less j id)) [
  | inl lt ↦
      rw
        (
          lt,
          find_widget-Above j src (Above-trans j id (widget_keys src) lt above),
          find_widget-insert_other j id ws (attach_widget ws) dest (inl lt),
        )
        refl
  | inr not_lt ↦ elim (Bool-cases (less id j)) [
    | inl gt ↦
        rw (not_lt, gt, find_widget-insert_other j id ws (attach_widget ws) dest (inr gt)) refl
    | inr not_gt ↦ rw (not_lt, not_gt) (at_key (less_total j id not_lt not_gt))
  ]
]
  where
    at_key :
        j ≡ id
        → merged (find_widget j src) (find_widget j (insert_widget id ws (attach_widget ws) dest))
          ≡ some (put_in ws (attach_widget ws) (find_widget j dest))
    at_key is =
        rw
          (
            is,
            find_widget-Above id src above,
            find_widget-insert_self id ws (attach_widget ws) dest,
          )
          refl

find_widget-attach_set :
    (j : Bytes) (src dest : Widgets)
    → IsAscending (widget_keys src)
    → IsAscending (widget_keys dest)
    → IsAscending (widget_keys (attach_set src dest))
      × (find_widget j (attach_set src dest) ≡ merged (find_widget j src) (find_widget j dest))
unfolding attach_set find_widget
find_widget-attach_set j empty_set dest order order' = (order', refl)
find_widget-attach_set j (entry id ws src) dest (above, order) order' =
    let (ascending, found) =
      find_widget-attach_set j src (insert_widget id ws (attach_widget ws) dest) order
        (insert_widget-IsAscending id ws (attach_widget ws) dest order') in
    (ascending, found ∙ merged_step j id ws src dest above)

-- A set and the sets of children below it are in the order of their keys.
abbrev pub IsOrdered : Widgets → Type 0
IsOrdered empty_set = Unit
IsOrdered (entry key (widget children path_info query_string) rest) =
    Above key (widget_keys rest) × IsOrdered children × IsOrdered rest

IsOrdered-IsAscending : (ws : Widgets) → IsOrdered ws → IsAscending (widget_keys ws)
IsOrdered-IsAscending empty_set o = tt
IsOrdered-IsAscending (entry key (widget children p q) rest) (above, o, o') =
    (above, IsOrdered-IsAscending rest o')

-- The path_info and the query_string of the widget that is reached from one by a path of ids.
pub value_of : List Bytes → Option WidgetSession → Option (Text × Text)
value_of [] none = none
value_of (id ∷ ids) none = none
value_of [] (some (widget children path_info query_string)) = some (path_info, query_string)
value_of (id ∷ ids) (some (widget children path_info query_string)) =
    value_of ids (find_widget id children)

-- Those of the source, if it has one of the two or the destination has no such widget, else those of
-- the destination.
abbrev pub newer : Option (Text × Text) → Option (Text × Text) → Option (Text × Text)
newer none dest = dest
newer (some src) none = some src
newer (some (none, none)) (some dest) = some dest
newer (some (some path_info, query_string)) (some dest) = some (some path_info, query_string)
newer (some (none, some query_string)) (some dest) = some (none, some query_string)

value_of-none : (ids : List Bytes) → value_of ids none ≡ none
unfolding value_of
value_of-none [] = refl
value_of-none (id ∷ ids) = refl

newer-none : (src : Option (Text × Text)) → newer src none ≡ src
newer-none none = refl
newer-none (some (none, none)) = refl
newer-none (some (none, some q)) = refl
newer-none (some (some p, q)) = refl

abbrev IsOrderedIn : Option WidgetSession → Type 0
IsOrderedIn none = Unit
IsOrderedIn (some (widget children path_info query_string)) = IsOrdered children

find_widget-IsOrderedIn : (j : Bytes) (ws : Widgets) → IsOrdered ws → IsOrderedIn (find_widget j ws)
unfolding find_widget
find_widget-IsOrderedIn j empty_set o = tt
find_widget-IsOrderedIn j (entry key (widget children p q) rest) (above, o, o') =
    elim (Bool-cases (less j key)) [
      | inl lt ↦ rw lt tt
      | inr not_lt ↦ elim (Bool-cases (less key j)) [
        | inl gt ↦ rw (not_lt, gt) (find_widget-IsOrderedIn j rest o')
        | inr same ↦ rw (not_lt, same) o
      ]
    ]

attached_value :
    (p q p' q' : Text) (src dest : Widgets)
    → value_of [] (some (attach_widget (widget src p q) (widget dest p' q')))
      ≡ newer (some (p, q)) (some (p', q'))
unfolding attach_widget value_of is_some
attached_value none none p' q' src dest = refl
attached_value none (some q) p' q' src dest = refl
attached_value (some p) q p' q' src dest = refl

value_of-merged :
    (ids : List Bytes) (src dest : Option WidgetSession)
    → IsOrderedIn src
    → IsOrderedIn dest
    → value_of ids (merged src dest) ≡ newer (value_of ids src) (value_of ids dest)
unfolding value_of attach_widget
value_of-merged ids none dest o o' = rw (value_of-none ids) refl
value_of-merged ids (some w) none o o' =
    rw (value_of-none ids) (sym (newer-none (value_of ids (some w))))
value_of-merged [] (some (widget src p q)) (some (widget dest p' q')) o o' =
    attached_value p q p' q' src dest
value_of-merged (id ∷ ids) (some (widget src p q)) (some (widget dest p' q')) o o' =
    ap (value_of ids)
      (find_widget-attach_set id src dest (IsOrdered-IsAscending src o)
        (IsOrdered-IsAscending dest o')).1
    ∙ value_of-merged ids (find_widget id src) (find_widget id dest)
        (find_widget-IsOrderedIn id src o) (find_widget-IsOrderedIn id dest o')

-- WidgetSession::Attach of two sets of widgets, which are in the order of their keys like all the sets
-- below them, gives a set in this order. On any path of ids into it there is a widget exactly if there
-- is one in the source or in the destination; its path_info and its query_string are both those of the source, if
-- that has one of the two there or the destination has no such widget, and else both those of the
-- destination.
pub value_of-attach_set :
    (id : Bytes) (ids : List Bytes) (src dest : Widgets)
    → IsOrdered src
    → IsOrdered dest
    → IsAscending (widget_keys (attach_set src dest))
      × (value_of ids (find_widget id (attach_set src dest))
          ≡ newer (value_of ids (find_widget id src)) (value_of ids (find_widget id dest)))
value_of-attach_set id ids src dest o o' =
    let (ascending, found) =
      find_widget-attach_set id src dest (IsOrdered-IsAscending src o)
        (IsOrdered-IsAscending dest o') in
    (
      ascending,
      ap (value_of ids) found
          ∙ value_of-merged ids (find_widget id src) (find_widget id dest)
              (find_widget-IsOrderedIn id src o) (find_widget-IsOrderedIn id dest o'),
    )
