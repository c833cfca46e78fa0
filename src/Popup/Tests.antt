-- ===== src/Popup/Tests.antt =====
-- A message with a file name in it, and answers in the wrong order.
use tuxwall.Base.{◌≡◌, refl, true, List, [], ◌∷◌}
use tuxwall.Base.Texts.{codes}
use tuxwall.Popup.{
  start, Event, typed, answered, found, tab_pressed, enter_pressed, down_pressed, handle, run,
  oc_maybe_popup, files_answered, oc_submit, oc_popup_pick, at_last, first_word, trim, trim_start,
  trim_end,
}
use tuxwall.Popup.Chosen.{IsSelected, run-IsSelected}
use tuxwall.Popup.Late.{asking, pick_first, run-pick_first}

-- The answer for "@a" comes after that for "@ab".
abbrev late_answer : List Event
late_answer =
    typed (codes "see @a")
    ∷ typed (codes "see @ab")
    ∷ answered (codes "ab") (found (codes "abc.md" ∷ []))
    ∷ answered (codes "a") (found (codes "a.md" ∷ codes "b.md" ∷ []))
    ∷ tab_pressed
    ∷ []

late_test : (run late_answer start).value ≡ codes "see @a.md b"
unfolding run handle oc_maybe_popup files_answered oc_popup_pick at_last first_word
late_test = refl

abbrev commands : List Event
commands = typed (codes "/Un") ∷ down_pressed ∷ down_pressed ∷ enter_pressed ∷ enter_pressed ∷ []

commands_test :
    ((run commands start).sent ≡ codes "/unshare" ∷ []) × ((run commands start).hidden ≡ true)
unfolding run handle oc_maybe_popup oc_submit oc_popup_pick at_last first_word trim trim_start
    trim_end
commands_test = (refl, refl)

run-IsSelected_example : IsSelected (run late_answer start)
run-IsSelected_example = run-IsSelected late_answer

run-pick_first_example :
    ((run (pick_first (codes "ab") 97 [] []) (asking [] (codes "ab") (codes "ab") start)).value
      ≡ codes "@a ")
    × ((run (pick_first (codes "a") 97 [] []) (asking [] (codes "ab") (codes "a") start)).value
        ≡ codes "@a b")
run-pick_first_example = run-pick_first [] (codes "ab") (codes "a") 97 [] [] start refl
