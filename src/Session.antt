-- ===== src/Session.antt =====
-- www/scripts/dashboard.js: who is signed in, `fetchJSON`, `handleSessionExpired`, `bootstrapAuth`, the
-- login form, `showLoginGate`, `hideLoginGate`, the part of `applyRoleUI` that keeps state,
-- `checkSessionIdle` and `pokeSession`; and the incidents, which are polled while someone is. A request
-- under way is named by the sign-in under which it was sent. Times are in milliseconds.
pub mod Incidents
pub mod Guard
pub mod Stale
mod Tests
use tuxwall.Base.{
  ℕ, zero, suc, ◌+◌, ◌-◌, ◌*◌, String, Bool, true, false, not, ◌&&◌, ◌||◌, Option, none, some, List,
  [], ◌∷◌, ltb, ◌==◌, str_eq, any, if◌then◌else◌,
}
use tuxwall.Session.Incidents.{Feed}

pub data Role : Type 0 where
  admin viewer : Role

-- What the server says of the one who is signed in.
pub record User : Type 0 where
  pub username : String
  pub role : Role
  pub is_owner : Bool
  pub can_manage_users : Bool

-- The gate: whether it is for the first account, and its error.
pub record Gate : Type 0 where
  pub setup_mode : Bool
  pub error : String
  pub asks_totp : Bool
  pub button_disabled : Bool

pub record Session : Type 0 where
  pub authed : Bool
  -- how often someone has signed in
  pub sign_ins : ℕ
  pub role : Role
  pub is_owner : Bool
  pub can_manage_users : Bool
  pub username : String
  -- the gate, if it is shown
  pub gate : Option Gate
  pub incident_timer : Bool
  pub incident_wrap_hidden : Bool
  pub panel_open : Bool
  pub incidents : Option Feed
  pub last_ok : ℕ
  pub idle_warn : Bool
  pub banner_hidden : Bool
  pub user_menu_hidden : Bool
  -- of the button in that menu
  pub logout_hidden : Bool
  -- requests under way, each with the sign-in that it was sent under
  pub calls : List ℕ

-- The page as it is loaded. Before `bootstrapAuth` has its answer it is hidden, but not by the gate; the
-- sign-out button is hidden only with its menu.
abbrev pub start : Session
start = record {
  authed = false;
  sign_ins = 0;
  role = viewer;
  is_owner = false;
  can_manage_users = false;
  username = "";
  gate = none;
  incident_timer = false;
  incident_wrap_hidden = true;
  panel_open = false;
  incidents = none;
  last_ok = 0;
  idle_warn = false;
  banner_hidden = true;
  user_menu_hidden = true;
  logout_hidden = false;
  calls = [];
}

-- While the gate is hidden its button is enabled.
abbrev pub show_login_gate : Bool → String → Session → Session
show_login_gate setup message s = record s {
  gate =
      some (record {
        setup_mode = setup;
        error = message;
        asks_totp = false;
        button_disabled = false;
      });
}

abbrev pub stop_incident_polling : Session → Session
stop_incident_polling s = record s {
  incident_timer = false;
  incident_wrap_hidden = true;
  panel_open = false;
  incidents = none;
}

-- `refreshIncidents` up to its `await`
abbrev pub refresh_incidents : Session → Session
refresh_incidents s = if s.authed then record s { calls = s.sign_ins ∷ s.calls } else s

abbrev pub start_incident_polling : Session → Session
start_incident_polling s =
    if s.authed
    then refresh_incidents (record s { incident_wrap_hidden = false; incident_timer = true })
    else s

-- `handleSessionExpired`
unfoldable pub handle_session_expired : Session → Session
handle_session_expired s =
    if s.authed
    then show_login_gate false "Session expired. Sign in again." (
        stop_incident_polling (record s {
          authed = false;
          role = viewer;
          is_owner = false;
          can_manage_users = false;
          logout_hidden = true;
          user_menu_hidden = true;
        }))
    else s

-- The state that a sign-in sets, up to `applyRoleUI`, which starts the polling.
abbrev pub sign_in : User → Session → Session
sign_in u s = start_incident_polling (record s {
  authed = true;
  sign_ins = s.sign_ins + 1;
  role = u.role;
  is_owner = u.is_owner;
  can_manage_users = u.can_manage_users;
  logout_hidden = false;
  username = u.username;
  user_menu_hidden = false;
})

-- The answer to `bootstrapAuth`.
pub data Boot : Type 0 where
  unreachable : String → Boot
  signed_out : (setup_required : Bool) → Boot
  signed_in : User → Boot

unfoldable pub bootstrap_auth : Boot → ℕ → Session → Session
bootstrap_auth (unreachable message) now s = show_login_gate false message s
bootstrap_auth (signed_out setup) now s = show_login_gate setup "" (record s { last_ok = now })
bootstrap_auth (signed_in u) now s = sign_in u (record s { last_ok = now })

-- The answer to the login form.
pub data Login : Type 0 where
  refused : String → Login
  totp_required : Login
  accepted : User → Login

-- What the form does to the gate, if it is shown.
abbrev pub on_gate : (Gate → Gate) → Option Gate → Option Gate
on_gate f none = none
on_gate f (some g) = some (f g)

-- the submit up to its request, on a name and a password after `trim`
abbrev pub submitted_gate : String → String → Gate → Gate
submitted_gate name password g =
    if str_eq name "" || str_eq password ""
    then record g { error = "Enter a username and password." }
    else record g { button_disabled = true; error = "" }

unfoldable pub submit_login : String → String → Session → Session
submit_login name password s = record s { gate = on_gate (submitted_gate name password) s.gate }

unfoldable pub login_answer : Login → Session → Session
login_answer (refused message) s = record s {
  gate = on_gate (λ g. record g { error = message; button_disabled = false }) s.gate;
}
login_answer totp_required s = record s {
  gate =
      on_gate
        (λ g. record g {
          asks_totp = true;
          error = "Enter the 6-digit code from your authenticator app.";
          button_disabled = false;
        })
        s.gate;
}
login_answer (accepted u) s = record (sign_in u s) { gate = none }

-- An answer of `fetchJSON`: whether it is 401, and what `refreshIncidents` makes of a good one.
pub data Answer : Type 0 where
  unauthorized : Answer
  http_error : Answer
  fetched : Option Feed → Answer

pub remove_call : ℕ → List ℕ → List ℕ
remove_call n [] = []
remove_call n (c ∷ cs) = if c == n then cs else c ∷ remove_call n cs

abbrev pub show_feed : Option Feed → Session → Session
show_feed none s = s
show_feed (some f) s = record s { incidents = some f }

abbrev pub receive : Answer → ℕ → Session → Session
receive unauthorized now s = handle_session_expired s
receive http_error now s = s
receive (fetched f) now s = show_feed f (record s { last_ok = now })

-- The answer to a request that was sent under sign-in `n`; which one that is it does not look at.
unfoldable pub answered : ℕ → Answer → ℕ → Session → Session
unfolding handle_session_expired remove_call
answered n a now s =
    if any (λ c. c == n) s.calls
    then receive a now (record s { calls = remove_call n s.calls })
    else s

-- A request of another part of the page.
abbrev pub request : Session → Session
request s = record s { calls = s.sign_ins ∷ s.calls }

abbrev pub idle_limit : ℕ
idle_limit = 2 * 3600 * 1000 - 15 * 60 * 1000

-- `state.lastOk || Date.now()`: 0 is no time.
abbrev pub idle_for : ℕ → ℕ → ℕ
idle_for now last = if last == 0 then 0 else now - last

unfoldable pub check_session_idle : (hidden : Bool) → ℕ → Session → Session
check_session_idle hidden now s =
    if not s.authed || s.idle_warn || hidden || ltb (idle_for now s.last_ok) idle_limit
    then s
    else record s { idle_warn = true; banner_hidden = false }

-- `pokeSession`, with whether its request is answered with `ok`
unfoldable pub poke_session : Bool → ℕ → Session → Session
poke_session answered_ok now s =
    if s.idle_warn && answered_ok
    then record s { last_ok = now; idle_warn = false; banner_hidden = true }
    else s

-- the click on the bell, and the clicks and keys that close the panel
unfoldable pub press_bell : Session → Session
press_bell s =
    let opened = record s { panel_open = not s.panel_open } in
    if s.panel_open then opened else refresh_incidents opened

pub data Event : Type 0 where
  booted : Boot → ℕ → Event
  submitted : (name : String) → (password : String) → Event
  login_answered : Login → Event
  requested : Event
  poll_due : Event
  call_answered : ℕ → Answer → ℕ → Event
  idle_checked : (hidden : Bool) → ℕ → Event
  poked : (answered_ok : Bool) → ℕ → Event
  bell_pressed panel_closed : Event

-- The timer polls while it is set; the form is there with the gate, and takes no submit while its
-- request is under way, which only then is answered.
abbrev pub is_some_gate : Option Gate → Bool
is_some_gate none = false
is_some_gate (some g) = true

-- Whether the form's request is under way, which its button is disabled for.
abbrev pub awaits_answer : Option Gate → Bool
awaits_answer none = false
awaits_answer (some g) = g.button_disabled

pub handle : Event → Session → Session
unfolding bootstrap_auth submit_login login_answer answered check_session_idle poke_session
    press_bell
handle (booted b now) s = if s.authed || is_some_gate s.gate then s else bootstrap_auth b now s
handle (submitted name password) s =
    if awaits_answer s.gate then s else submit_login name password s
handle (login_answered l) s = if awaits_answer s.gate then login_answer l s else s
handle requested s = request s
handle poll_due s = if s.incident_timer then refresh_incidents s else s
handle (call_answered n a now) s = answered n a now s
handle (idle_checked hidden now) s = check_session_idle hidden now s
handle (poked answered_ok now) s = poke_session answered_ok now s
handle bell_pressed s = if s.incident_wrap_hidden then s else press_bell s
handle panel_closed s = record s { panel_open = false }

pub run : List Event → Session → Session
unfolding handle
run [] s = s
run (e ∷ es) s = run es (handle e s)
