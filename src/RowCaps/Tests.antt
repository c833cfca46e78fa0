-- ===== src/RowCaps/Tests.antt =====
-- A table of thirty rows.
use tuxwall.Base.{◌≡◌, refl, false, none, some, List, [], ◌∷◌}
use tuxwall.RowCaps.{
  Event, rendered, framed, clicked, animated, run, attach, handle, render, frame, click, apply,
  cap_rows, mark_reveal, reveal_from, rows_of, animation_end,
}
use tuxwall.RowCaps.Settled.{IsSettled, visible, run-IsSettled}

abbrev events : List Event
events = framed ∷ clicked ∷ animated 27 ∷ rendered 40 ∷ framed ∷ []

expanded_test : visible (run events (attach none 30)).rows ≡ 40
unfolding run attach handle render frame click apply cap_rows mark_reveal reveal_from rows_of
    animation_end
expanded_test = refl

capped_test : visible (run (framed ∷ []) (attach (some 10) 30)).rows ≡ 10
unfolding run attach handle frame apply cap_rows rows_of
capped_test = refl

waits_for_none : (run events (attach none 30)).scheduled ≡ false
unfolding run attach handle render frame click apply mark_reveal
waits_for_none = refl

run-IsSettled_example : IsSettled (run events (attach none 30))
run-IsSettled_example = run-IsSettled none 30 events waits_for_none
