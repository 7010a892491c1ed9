-- ===== src/Session/Attach/Order.antt =====
-- Keys are in a strict total order, and a set in this order is searched by key.
use cm4all_beng_proxy.Common.{
  ℕ, ◌≡◌, refl, sym, true, false, Option, none, some, List, [], ◌∷◌, Bytes, if◌then◌else◌, arith,
  All, Bool-cases, inl, inr, ◌⊎◌,
}
use cm4all_beng_proxy.Session.{WidgetSession, Widgets, empty_set, entry, less}
use cm4all_beng_proxy.Session.Attach.{insert_widget, find_widget}
use cm4all_beng_proxy.Session.RoundTrip.Keys.{IsAscending, widget_keys, less-asym}

pub less_irrefl : (s : Bytes) → less s s ≡ false
unfolding less
less_irrefl [] = refl
less_irrefl (c ∷ s) = ground (arith, less_irrefl s)

pub less_trans : (s t u : Bytes) → less s t ≡ true → less t u ≡ true → less s u ≡ true
unfolding less
less_trans [] [] u p q = absurd (ground arith)
less_trans (c ∷ s) [] u p q = absurd (ground arith)
less_trans s (d ∷ t) [] p q = absurd (ground arith)
less_trans [] (d ∷ t) (e ∷ u) p q = refl
less_trans (c ∷ s) (d ∷ t) (e ∷ u) p q = ground (arith, less_trans s t u)

cons_eq : (c d : ℕ) (s t : Bytes) → c ≡ d → s ≡ t → c ∷ s ≡ d ∷ t
cons_eq c d s t p q = rw (p, q) refl

pub less_total : (s t : Bytes) → less s t ≡ false → less t s ≡ false → s ≡ t
unfolding less
less_total [] [] p q = refl
less_total [] (d ∷ t) p q = absurd (ground arith)
less_total (c ∷ s) [] p q = absurd (ground arith)
less_total (c ∷ s) (d ∷ t) p q =
    let same : c ≡ d = ground arith in
    cons_eq c d s t same (less_total s t (ground arith) (ground arith))

abbrev pub Above : Bytes → List Bytes → Type 0
Above k ks = All (λ j. less k j ≡ true) ks

pub Above-trans : (j k : Bytes) (ks : List Bytes) → less j k ≡ true → Above k ks → Above j ks
Above-trans j k [] lt a = tt
Above-trans j k (i ∷ ks) lt (p, a) = (less_trans j k i lt p, Above-trans j k ks lt a)

pub find_widget-Above :
    (j : Bytes) (ws : Widgets) → Above j (widget_keys ws) → find_widget j ws ≡ none
unfolding find_widget
find_widget-Above j empty_set a = refl
find_widget-Above j (entry k w rest) (p, a) = rw p refl

insert_widget-Above :
    (k id : Bytes) (ws : WidgetSession) (f : WidgetSession → WidgetSession) (vs : Widgets)
    → less k id ≡ true
    → Above k (widget_keys vs)
    → Above k (widget_keys (insert_widget id ws f vs))
unfolding insert_widget
insert_widget-Above k id ws f empty_set lt a = (lt, tt)
insert_widget-Above k id ws f (entry key w rest) lt (p, a) = elim (Bool-cases (less id key)) [
  | inl before ↦ rw before (lt, (p, a))
  | inr not_before ↦ elim (Bool-cases (less key id)) [
    | inl behind ↦ rw (not_before, behind) (p, insert_widget-Above k id ws f rest lt a)
    | inr same ↦ rw (not_before, same) (p, a)
  ]
]

pub insert_widget-IsAscending :
    (id : Bytes) (ws : WidgetSession) (f : WidgetSession → WidgetSession) (vs : Widgets)
    → IsAscending (widget_keys vs)
    → IsAscending (widget_keys (insert_widget id ws f vs))
unfolding insert_widget
insert_widget-IsAscending id ws f empty_set order = (tt, tt)
insert_widget-IsAscending id ws f (entry key w rest) (a, order) = elim (Bool-cases (less id key)) [
  | inl before ↦ rw before ((before, Above-trans id key (widget_keys rest) before a), (a, order))
  | inr not_before ↦ elim (Bool-cases (less key id)) [
    | inl behind ↦
        rw (not_before, behind)
          (
            insert_widget-Above key id ws f rest behind a,
            insert_widget-IsAscending id ws f rest order,
          )
    | inr same ↦ rw (not_before, same) (a, order)
  ]
]

-- What an insertion makes of the value that a key had.
abbrev pub put_in :
    WidgetSession → (WidgetSession → WidgetSession) → Option WidgetSession → WidgetSession
put_in ws f none = ws
put_in ws f (some w) = f w

pub find_widget-insert_self :
    (id : Bytes) (ws : WidgetSession) (f : WidgetSession → WidgetSession) (vs : Widgets)
    → find_widget id (insert_widget id ws f vs) ≡ some (put_in ws f (find_widget id vs))
unfolding insert_widget find_widget
find_widget-insert_self id ws f empty_set = rw (less_irrefl id) refl
find_widget-insert_self id ws f (entry key w rest) = elim (Bool-cases (less id key)) [
  | inl before ↦ rw (before, less_irrefl id) refl
  | inr not_before ↦ elim (Bool-cases (less key id)) [
    | inl behind ↦
        rw (not_before, behind) (rw (not_before, behind) (find_widget-insert_self id ws f rest))
    | inr same ↦ rw (not_before, same) (rw (not_before, same) refl)
  ]
]

pub find_widget-insert_other :
    (j id : Bytes) (ws : WidgetSession) (f : WidgetSession → WidgetSession) (vs : Widgets)
    → (less j id ≡ true) ⊎ (less id j ≡ true)
    → find_widget j (insert_widget id ws f vs) ≡ find_widget j vs
unfolding insert_widget find_widget
find_widget-insert_other j id ws f empty_set (inl lt) = rw lt refl
find_widget-insert_other j id ws f empty_set (inr gt) = rw (less-asym id j gt, gt) refl
find_widget-insert_other j id ws f (entry key w rest) other = elim (Bool-cases (less id key)) [
  | inl before ↦ rw before (in_front other before)
  | inr not_before ↦ elim (Bool-cases (less key id)) [
    | inl behind ↦ rw (not_before, behind, find_widget-insert_other j id ws f rest other) refl
    | inr not_behind ↦
        rw (not_before, not_behind) (at_key (less_total id key not_before not_behind) other)
  ]
]
  where
    in_front :
        (less j id ≡ true) ⊎ (less id j ≡ true)
        → less id key ≡ true
        → (if less j id
            then none
            else if less id j
            then if less j key then none else if less key j then find_widget j rest else some w
            else some ws)
          ≡ (if less j key then none else if less key j then find_widget j rest else some w)
    in_front (inl lt) before = rw (lt, less_trans j id key lt before) refl
    in_front (inr gt) before = rw (less-asym id j gt, gt) refl

    at_key :
        id ≡ key
        → (less j id ≡ true) ⊎ (less id j ≡ true)
        → (if less j key then none else if less key j then find_widget j rest else some (f w))
          ≡ (if less j key then none else if less key j then find_widget j rest else some w)
    at_key is (inl lt) = rw (sym is, lt) refl
    at_key is (inr gt) = rw (sym is, less-asym id j gt, gt) refl
