-- ===== src/Session/Tests.antt =====
-- A user who signs in, whose session then expires.
use tuxwall.Base.{◌≡◌, refl, true, false, none, some, List, [], ◌∷◌}
use tuxwall.Session.{
  User, admin, start, Event, booted, signed_out, submitted, login_answered, accepted, totp_required,
  idle_checked, poll_due, bell_pressed, call_answered, unauthorized, fetched, handle, run,
  bootstrap_auth, submit_login, login_answer, answered, remove_call, handle_session_expired,
  check_session_idle, poke_session, press_bell,
}
use tuxwall.Session.Incidents.{Feed}
use tuxwall.Session.Guard.{IsGuarded, run-IsGuarded}

abbrev ann : User
ann = record { username = "ann"; role = admin; is_owner = false; can_manage_users = true }

abbrev feed : Feed
feed = record {
  incidents =
      record { id = "disk"; active = true; acknowledged = false }
      ∷ record { id = "wan"; active = true; acknowledged = true }
      ∷ record { id = "fan"; active = false; acknowledged = false }
      ∷ [];
  unacknowledged = 1;
  critical = 1;
}

abbrev day : List Event
day =
    booted (signed_out false) 1000
    ∷ submitted "ann" "secret"
    ∷ login_answered totp_required
    ∷ submitted "ann" "secret"
    ∷ login_answered (accepted ann)
    ∷ call_answered 1 (fetched (some feed)) 2000
    ∷ idle_checked false 6302000
    ∷ bell_pressed
    ∷ poll_due
    ∷ call_answered 1 unauthorized 6303000
    ∷ []

day_test :
    ((run day start).authed ≡ false)
    × ((run day start).calls ≡ 1 ∷ [])
    × ((run day start).incidents ≡ none)
    × ((run day start).idle_warn ≡ true)
    × ((run day start).username ≡ "ann")
unfolding run handle bootstrap_auth submit_login login_answer answered remove_call
    handle_session_expired check_session_idle poke_session press_bell
day_test = (refl, refl, refl, refl, refl)

run-IsGuarded_example : IsGuarded (run day start)
run-IsGuarded_example = run-IsGuarded day
