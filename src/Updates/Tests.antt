-- ===== src/Updates/Tests.antt =====
-- An upgrade that is watched to its end, and one whose poll fails.
use tuxwall.Base.{◌≡◌, refl, true, false, none, some, List, [], ◌∷◌}
use tuxwall.Updates.{
  Report, start, good, bad, Event, timer_due, clicked, poll_came, refresh_came, click_came,
  render_updates, poll_answered, refresh_answered, click_answered, handle, run, upgraded,
  at_percent,
}
use tuxwall.Updates.Shown.{IsShown, run-IsShown}
use tuxwall.Updates.Stuck.{polling, run-stuck}

abbrev working : Report
working = record {
  upgradable = some 7;
  last_check = some 100;
  last_upgrade = none;
  running = true;
  percent = some 40;
  exit_code = none;
}

abbrev finished : Report
finished = record {
  upgradable = some 0;
  last_check = some 100;
  last_upgrade = some 200;
  running = false;
  percent = none;
  exit_code = some 0;
}

abbrev upgrade : List Event
upgrade =
    clicked
    ∷ click_came none
    ∷ refresh_came (good working)
    ∷ clicked
    ∷ timer_due
    ∷ poll_came (good working)
    ∷ timer_due
    ∷ []

upgrade_test :
    ((run upgrade start).card.status ≡ at_percent 40)
    × ((run upgrade start).clicks ≡ 0)
    × ((run upgrade start).polls ≡ 1)
    × ((handle (poll_came (good finished)) (run upgrade start)).card.status ≡ upgraded)
    × ((handle (poll_came (good finished)) (run upgrade start)).timer ≡ false)
unfolding run handle poll_answered refresh_answered click_answered render_updates
upgrade_test = (refl, refl, refl, refl, refl)

-- Two polls under way at once, whose answers come in the other order.
abbrev out_of_order : List Event
out_of_order = timer_due ∷ poll_came (good finished) ∷ poll_came (good working) ∷ timer_due ∷ []

out_of_order_test :
    ((run out_of_order (run upgrade start)).card.buttons_disabled ≡ true)
    × ((run out_of_order (run upgrade start)).timer ≡ false)
    × ((run out_of_order (run upgrade start)).polls ≡ 0)
unfolding run handle poll_answered refresh_answered click_answered render_updates
out_of_order_test = (refl, refl, refl)

run-IsShown_example : IsShown (run upgrade start).card
run-IsShown_example = run-IsShown upgrade

abbrev after : List Event
after = timer_due ∷ clicked ∷ poll_came (good finished) ∷ []

run-stuck_example :
    run
      (timer_due ∷ poll_came (bad "Failed to fetch") ∷ after)
      (polling (run upgrade start).card none)
    ≡ record (polling (run upgrade start).card none) {
      timer = false;
      banner = some "Failed to fetch";
    }
run-stuck_example = run-stuck (run upgrade start).card none "Failed to fetch" after refl
