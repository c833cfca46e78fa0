-- ===== src/Session/Guard.antt =====
-- What holds of a session whatever happens.
use tuxwall.Base.{
  ℕ, ◌≡◌, refl, Bool, true, false, not, ◌&&◌, ◌||◌, Option, none, some, List, [], ◌∷◌, any, ltb,
  ◌==◌, if-elim, arith,
}
use tuxwall.Session.{
  Session, admin, viewer, User, Gate, start, Boot, unreachable, signed_out, signed_in,
  bootstrap_auth, Login, refused, totp_required, accepted, sign_in, login_answer, submit_login,
  Answer, unauthorized, http_error, fetched, receive, answered, handle_session_expired,
  refresh_incidents, check_session_idle, poke_session, press_bell, Event, booted, submitted,
  login_answered, requested, poll_due, call_answered, idle_checked, poked, bell_pressed,
  panel_closed, handle, run, is_some_gate, awaits_answer, on_gate, submitted_gate, idle_for,
  idle_limit, remove_call,
}

-- `isAdminUser()`
abbrev pub is_admin_user : Session → Bool
is_admin_user s = elim s.role [ admin ↦ true | viewer ↦ s.is_owner ]

abbrev pub gate_shown : Session → Bool
gate_shown s = is_some_gate s.gate

-- The incidents are polled exactly while someone is signed in, the bell and the user menu with its
-- sign-out button are there exactly then, the gate is not, and nobody else has a right.
abbrev pub IsGuarded : Session → Type 0
IsGuarded s =
    (s.incident_timer ≡ s.authed)
    × (s.incident_wrap_hidden ≡ not s.authed)
    × ((s.user_menu_hidden ≡ not s.authed) × ((s.authed && s.logout_hidden) ≡ false))
    × ((s.authed && gate_shown s) ≡ false)
    × ((not s.authed && (is_admin_user s || s.can_manage_users)) ≡ false)
    × ((not s.authed && s.panel_open) ≡ false)

expired-IsGuarded : (s : Session) → IsGuarded s → IsGuarded (handle_session_expired s)
unfolding handle_session_expired
expired-IsGuarded s h =
    if-elim IsGuarded s.authed _ s (λ e. (refl, refl, (refl, refl), refl, refl, refl)) (λ e. h)

refresh-IsGuarded : (s : Session) → IsGuarded s → IsGuarded (refresh_incidents s)
refresh-IsGuarded s h = if-elim IsGuarded s.authed _ s (λ e. h) (λ e. h)

sign_in-IsGuarded : (u : User) (s : Session) → gate_shown s ≡ false → IsGuarded (sign_in u s)
sign_in-IsGuarded u s g = (refl, refl, (refl, refl), g, refl, refl)

boot-IsGuarded :
    (b : Boot) (now : ℕ) (s : Session)
    → s.authed ≡ false
    → gate_shown s ≡ false
    → IsGuarded s
    → IsGuarded (bootstrap_auth b now s)
unfolding bootstrap_auth
boot-IsGuarded (unreachable m) now s e g h = (h.0, h.1, h.2, ground (arith, e), h.4, h.5)
boot-IsGuarded (signed_out setup) now s e g h = (h.0, h.1, h.2, ground (arith, e), h.4, h.5)
boot-IsGuarded (signed_in u) now s e g h = (refl, refl, (refl, refl), g, refl, refl)

on_gate-shown : (f : Gate → Gate) (o : Option Gate) → is_some_gate (on_gate f o) ≡ is_some_gate o
on_gate-shown f none = refl
on_gate-shown f (some g) = refl

login-IsGuarded : (l : Login) (s : Session) → IsGuarded s → IsGuarded (login_answer l s)
unfolding login_answer
login-IsGuarded (refused m) s h = (
  h.0,
  h.1,
  h.2,
  ground (
    arith,
    h.3,
    on_gate-shown (λ (g : Gate). record g { error = m; button_disabled = false }) s.gate,
  ),
  h.4,
  h.5,
)
login-IsGuarded totp_required s h = (
  h.0,
  h.1,
  h.2,
  ground (
    arith,
    h.3,
    on_gate-shown
        (λ (g : Gate). record g {
          asks_totp = true;
          error = "Enter the 6-digit code from your authenticator app.";
          button_disabled = false;
        })
        s.gate,
  ),
  h.4,
  h.5,
)
login-IsGuarded (accepted u) s h = (refl, refl, (refl, refl), refl, refl, refl)

receive-IsGuarded : (a : Answer) (now : ℕ) (s : Session) → IsGuarded s → IsGuarded (receive a now s)
receive-IsGuarded unauthorized now s h = expired-IsGuarded s h
receive-IsGuarded http_error now s h = h
receive-IsGuarded (fetched none) now s h = h
receive-IsGuarded (fetched (some f)) now s h = h

bell-IsGuarded : (s : Session) → s.authed ≡ true → IsGuarded s → IsGuarded (press_bell s)
unfolding press_bell
bell-IsGuarded s e h =
    let opened = record s { panel_open = not s.panel_open } in
    let g : IsGuarded opened = (h.0, h.1, h.2, h.3, h.4, ground (arith, e)) in
    if-elim IsGuarded s.panel_open opened (refresh_incidents opened) (λ c. g)
      (λ c. refresh-IsGuarded opened g)

handle-IsGuarded : (e : Event) (s : Session) → IsGuarded s → IsGuarded (handle e s)
unfolding handle submit_login answered check_session_idle poke_session
handle-IsGuarded (booted b now) s h =
    if-elim IsGuarded (s.authed || is_some_gate s.gate) s (bootstrap_auth b now s) (λ e. h)
      (λ e. boot-IsGuarded b now s (ground (arith, e)) (ground (arith, e)) h)
handle-IsGuarded (submitted name password) s h =
    if-elim IsGuarded (awaits_answer s.gate) s (submit_login name password s) (λ e. h)
      (λ e. (
        h.0,
        h.1,
        h.2,
        ground (arith, h.3, on_gate-shown (submitted_gate name password) s.gate),
        h.4,
        h.5,
      ))
handle-IsGuarded (login_answered l) s h =
    if-elim IsGuarded (awaits_answer s.gate) (login_answer l s) s (λ e. login-IsGuarded l s h)
      (λ e. h)
handle-IsGuarded requested s h = h
handle-IsGuarded poll_due s h =
    if-elim IsGuarded s.incident_timer (refresh_incidents s) s (λ e. refresh-IsGuarded s h) (λ e. h)
handle-IsGuarded (call_answered n a now) s h =
    if-elim IsGuarded (any (λ c. c == n) s.calls)
      (receive a now (record s { calls = remove_call n s.calls })) s
      (λ e. receive-IsGuarded a now (record s { calls = remove_call n s.calls }) h) (λ e. h)
handle-IsGuarded (idle_checked hidden now) s h =
    if-elim IsGuarded
      (not s.authed || s.idle_warn || hidden || ltb (idle_for now s.last_ok) idle_limit) s
      (record s { idle_warn = true; banner_hidden = false }) (λ e. h) (λ e. h)
handle-IsGuarded (poked ok now) s h =
    if-elim IsGuarded (s.idle_warn && ok)
      (record s { last_ok = now; idle_warn = false; banner_hidden = true }) s (λ e. h) (λ e. h)
handle-IsGuarded bell_pressed s h =
    if-elim IsGuarded s.incident_wrap_hidden s (press_bell s) (λ e. h)
      (λ e. bell-IsGuarded s (ground (arith, e, h.1)) h)
handle-IsGuarded panel_closed s h = (h.0, h.1, h.2, h.3, h.4, ground arith)

run_from-IsGuarded : (es : List Event) (s : Session) → IsGuarded s → IsGuarded (run es s)
unfolding run
run_from-IsGuarded [] s h = h
run_from-IsGuarded (e ∷ es) s h = run_from-IsGuarded es (handle e s) (handle-IsGuarded e s h)

-- Whatever is answered, refused, submitted and pressed in whatever order: the incidents are polled
-- exactly while someone is signed in; the bell and the user menu are shown exactly then, the menu with
-- its sign-out button, and the gate is not; and while nobody is signed in nobody counts as an admin, may manage users, or has the
-- panel of the incidents open.
pub run-IsGuarded : (es : List Event) → IsGuarded (run es start)
run-IsGuarded es = run_from-IsGuarded es start (refl, refl, (refl, refl), refl, refl, refl)
