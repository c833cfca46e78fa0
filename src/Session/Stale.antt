-- ===== src/Session/Stale.antt =====
-- Answers that come late, to requests that were sent under a session which has ended.
use tuxwall.Base.{
  ℕ, ◌+◌, ◌≡◌, ap, refl, ◌∙◌, String, true, false, none, some, List, [], ◌∷◌, ◌==◌, any, arith,
  if-elim, str_eq, ◌||◌,
}
use tuxwall.Session.{
  Session, submitted, submit_login, show_login_gate, User, Answer, unauthorized, fetched, accepted,
  Event, call_answered, login_answered, handle, run, receive, answered, remove_call,
  handle_session_expired, login_answer,
}
use tuxwall.Session.Incidents.{Feed}

-- Someone is signed in, and two requests of theirs are under way.
abbrev pub with_two_calls : Session → List ℕ → Session
with_two_calls s cs = record s { authed = true; calls = s.sign_ins ∷ s.sign_ins ∷ cs }

-- A request of sign-in `n` is under way, before those of `cs`.
answered-first :
    (n now : ℕ) (a : Answer) (s : Session) (cs : List ℕ)
    → answered n a now (record s { calls = n ∷ cs }) ≡ receive a now (record s { calls = cs })
unfolding answered remove_call
answered-first n now a s cs =
    if-elim (λ t. t ≡ receive a now (record s { calls = cs })) (any (λ c. c == n) (n ∷ cs))
      (receive a now (record s { calls = remove_call n (n ∷ cs) })) (record s { calls = n ∷ cs })
      (λ e. ap (λ l. receive a now (record s { calls = l })) (ground arith))
      (λ e. ground (arith, e))

answered-second :
    (n m now : ℕ) (a : Answer) (s : Session) (cs : List ℕ)
    → (m == n) ≡ false
    → answered n a now (record s { calls = m ∷ n ∷ cs })
      ≡ receive a now (record s { calls = m ∷ cs })
unfolding answered remove_call
answered-second n m now a s cs d =
    if-elim (λ t. t ≡ receive a now (record s { calls = m ∷ cs })) (any (λ c. c == n) (m ∷ n ∷ cs))
      (receive a now (record s { calls = remove_call n (m ∷ n ∷ cs) }))
      (record s { calls = m ∷ n ∷ cs })
      (λ e. ap (λ l. receive a now (record s { calls = l })) (ground (arith, d)))
      (λ e. ground (arith, e))

-- The first of the two requests shows that the session has expired.
abbrev pub expire : ℕ → ℕ → List Event
expire n now = call_answered n unauthorized now ∷ []

run-expire :
    (s : Session) (now : ℕ) (cs : List ℕ)
    → run (expire s.sign_ins now) (with_two_calls s cs)
      ≡ handle_session_expired (record s { authed = true; calls = s.sign_ins ∷ cs })
unfolding run handle
run-expire s now cs =
    answered-first s.sign_ins now unauthorized (record s { authed = true }) (s.sign_ins ∷ cs)

abbrev pub sign_in_again : String → String → User → List Event
sign_in_again name password u = submitted name password ∷ login_answered (accepted u) ∷ []

-- A name and a password are submitted to a gate that is shown, and accepted.
run-sign_in_again :
    (name password : String) (u : User) (s : Session)
    → (str_eq name "" || str_eq password "") ≡ false
    → run
        (sign_in_again name password u)
        (show_login_gate false "Session expired. Sign in again." s)
      ≡ login_answer (accepted u) s
unfolding run handle submit_login login_answer
run-sign_in_again name password u s p =
    if-elim
      (λ g.
        handle (login_answered (accepted u)) (record s { gate = some g })
        ≡ login_answer (accepted u) s)
      (str_eq name "" || str_eq password "") _ _ (λ e. ground (arith, e, p)) (λ e. refl)

next_eqb : (n : ℕ) → (n + 1 == n) ≡ false
next_eqb n = ground arith

-- Two requests of a session are under way, the first is answered with 401, and someone signs in with a
-- name and a password, which sends a request for the incidents: when the second is answered with 401
-- as well it ends the new session, which it says nothing about.
pub run-stale_unauthorized :
    (s : Session) (cs : List ℕ) (name password : String) (u : User) (now later : ℕ)
    → (str_eq name "" || str_eq password "") ≡ false
    → ((run
          (sign_in_again name password u)
          (run (expire s.sign_ins now) (with_two_calls s cs))).authed
        ≡ true)
      × ((run (expire s.sign_ins later) (
            run
              (sign_in_again name password u)
              (run (expire s.sign_ins now) (with_two_calls s cs)))).authed
          ≡ false)
unfolding run handle login_answer handle_session_expired
run-stale_unauthorized s cs name password u now later p =
    let n = s.sign_ins in
    let expired = handle_session_expired (record s { authed = true; calls = n ∷ cs }) in
    let signed = login_answer (accepted u) expired in
    let e =
      ap (run (sign_in_again name password u)) (run-expire s now cs)
      ∙ run-sign_in_again name password u expired p in
    (
      ap (λ t. t.authed) e,
      ap (λ t. (run (expire n later) t).authed) e
          ∙ ap (λ t. t.authed)
              (answered-second n (n + 1) later unauthorized signed cs (next_eqb n)),
    )

-- Two requests of a session are under way, and the first is answered with 401: when the second is one
-- for the incidents, and is answered with them all the same, they are kept, though nobody is signed
-- in and the end of the session had cleared them.
pub run-stale_incidents :
    (s : Session) (cs : List ℕ) (f : Feed) (now later : ℕ)
    → ((run (expire s.sign_ins now) (with_two_calls s cs)).incidents ≡ none)
      × ((run
            (call_answered s.sign_ins (fetched (some f)) later ∷ [])
            (run (expire s.sign_ins now) (with_two_calls s cs))).incidents
          ≡ some f)
      × ((run
            (call_answered s.sign_ins (fetched (some f)) later ∷ [])
            (run (expire s.sign_ins now) (with_two_calls s cs))).authed
          ≡ false)
unfolding run handle handle_session_expired
run-stale_incidents s cs f now later =
    let n = s.sign_ins in
    let expired = handle_session_expired (record s { authed = true; calls = n ∷ cs }) in
    let e = run-expire s now cs in
    let g =
      ap (run (call_answered n (fetched (some f)) later ∷ [])) e
      ∙ answered-first n later (fetched (some f)) expired cs in
    (ap (λ t. t.incidents) e, ap (λ t. t.incidents) g, ap (λ t. t.authed) g)
