-- ===== src/Popup/Chosen.antt =====
-- The item that is selected.
use tuxwall.Base.{
  ℕ, ◌≡◌, refl, true, false, ◌&&◌, ◌||◌, Option, none, some, List, [], ◌∷◌, map, keep, length, any,
  get_elem?, ltb, ◌==◌, arith, if-elim,
}
use tuxwall.Popup.{
  Text, Input, start, Kind, command, file, same_text, starts_with, trim, oc_commands, at_last,
  oc_popup_hide, oc_popup_show, pick_item, oc_popup_pick, ask_files, show_commands, oc_maybe_popup,
  first_word, lower, space, Files, failed, not_ok, found, show_files, remove_one, files_answered,
  send, oc_submit, Event, typed, answered, down_pressed, up_pressed, tab_pressed, escape_pressed,
  enter_pressed, send_clicked, item_clicked, handle, run,
}
use tuxwall.Base.Texts.{codes}

-- A list that is shown has a selected item, and one that is hidden has no items.
abbrev pub IsSelected : Input → Type 0
IsSelected s =
    ((s.hidden || ltb s.sel (length s.items)) ≡ true)
    × ((s.hidden && ltb 0 (length s.items)) ≡ false)

show-IsSelected :
    (k : Kind) (items : List Text) (t : Text) (s : Input) → IsSelected (oc_popup_show k items t s)
show-IsSelected k [] t s = (refl, refl)
show-IsSelected k (it ∷ items) t s = (ground arith, refl)

pick-IsSelected : (i : ℕ) (s : Input) → IsSelected (oc_popup_pick i s)
unfolding oc_popup_pick
pick-IsSelected i s = elim (get_elem? s.items i) as (λ o. IsSelected (pick_item o s)) [
  | none ↦ (refl, refl)
  | some [] ↦ (refl, refl)
  | some (c ∷ cs) ↦ (refl, refl)
]

ask-IsSelected : (o : Option (Text × Text)) (s : Input) → IsSelected s → IsSelected (ask_files o s)
ask-IsSelected none s h = (refl, refl)
ask-IsSelected (some (before, after)) s h =
    if-elim IsSelected (any (λ c. c == space) after || ltb 60 (length after)) (oc_popup_hide s) _
      (λ e. (refl, refl))
      (λ e. if-elim IsSelected (length after == 0) (oc_popup_hide s) _ (λ f. (refl, refl)) (λ f. h))

maybe-IsSelected : (s : Input) → IsSelected s → IsSelected (oc_maybe_popup s)
unfolding oc_maybe_popup
maybe-IsSelected s h =
    if-elim IsSelected (starts_with s.value (codes "/"))
      (show_commands (map lower (first_word s.value)) s) (ask_files (at_last s.value) s)
      (λ e.
        let word = map lower (first_word s.value) in
        show-IsSelected command (keep (λ c. starts_with c word) oc_commands) word s)
      (λ e. ask-IsSelected (at_last s.value) s h)

files-IsSelected : (f : Files) (t : Text) (s : Input) → IsSelected s → IsSelected (show_files f t s)
files-IsSelected failed t s h = (refl, refl)
files-IsSelected not_ok t s h = h
files-IsSelected (found files) t s h = show-IsSelected file files t s

submit-IsSelected : (s : Input) → IsSelected s → IsSelected (oc_submit s)
unfolding oc_submit
submit-IsSelected s h =
    if-elim IsSelected (length (trim s.value) == 0) s _ (λ e. h)
      (λ e.
        if-elim IsSelected _ (oc_popup_pick s.sel s) (send (trim s.value) s)
          (λ f. pick-IsSelected s.sel s) (λ f. (refl, refl)))

handle-IsSelected : (e : Event) (s : Input) → IsSelected s → IsSelected (handle e s)
unfolding handle files_answered
handle-IsSelected (typed value) s h = maybe-IsSelected (record s { value = value }) h
handle-IsSelected (answered t f) s h =
    if-elim IsSelected (any (λ u. same_text u t) s.asked) _ s
      (λ e. files-IsSelected f t (record s { asked = remove_one t s.asked }) h) (λ e. h)
handle-IsSelected down_pressed s h =
    if-elim IsSelected s.hidden s _ (λ e. h) (λ e. (ground (arith, e, h), ground (arith, h)))
handle-IsSelected up_pressed s h =
    if-elim IsSelected s.hidden s _ (λ e. h) (λ e. (ground (arith, e, h), ground (arith, h)))
handle-IsSelected tab_pressed s h =
    if-elim IsSelected s.hidden s _ (λ e. h) (λ e. pick-IsSelected s.sel s)
handle-IsSelected escape_pressed s h = if-elim IsSelected s.hidden s _ (λ e. h) (λ e. (refl, refl))
handle-IsSelected enter_pressed s h = submit-IsSelected s h
handle-IsSelected send_clicked s h = submit-IsSelected s h
handle-IsSelected (item_clicked i) s h =
    if-elim IsSelected s.hidden s _ (λ e. h) (λ e. pick-IsSelected i s)

run_from-IsSelected : (es : List Event) (s : Input) → IsSelected s → IsSelected (run es s)
unfolding run
run_from-IsSelected [] s h = h
run_from-IsSelected (e ∷ es) s h = run_from-IsSelected es (handle e s) (handle-IsSelected e s h)

-- Whatever is typed, pressed, clicked and answered in whatever order: where the list is shown, the
-- place that is selected is that of one of its items, and where it is hidden it has none.
pub run-IsSelected : (es : List Event) → IsSelected (run es start)
run-IsSelected es = run_from-IsSelected es start (refl, refl)
