-- ===== src/Agent/Tests.antt =====
-- A turn that is answered, and one that is aborted.
use tuxwall.Base.{◌+◌, ◌≡◌, refl, true, false, none, some, List, [], ◌∷◌, arith}
use tuxwall.Agent.{
  Event, accepted, sent, session_answered, message_answered, streamed, fired, Sse, asked, part,
  session_idle, start, run, handle, send, on_answer, remove_call,
}
use tuxwall.Agent.Live.{IsLive, run-IsLive}
use tuxwall.Agent.Stale.{abort_and_send, timed_out, busy_agent, IsTornDown, run-stale_watchdog}
use tuxwall.Agent.Race.{shell_and_send, before_session, status_after, IsOverlooked, run-shell_race}

abbrev one_turn : List Event
one_turn =
    sent
    ∷ session_answered 0 true
    ∷ streamed (part true)
    ∷ message_answered 0 accepted
    ∷ streamed (session_idle true)
    ∷ []

one_turn_test : ((run one_turn start).is_busy ≡ false) × ((run one_turn start).msgs ≡ 1)
unfolding run handle send on_answer remove_call
one_turn_test = (refl, refl)

run-IsLive_example : IsLive (run (sent ∷ session_answered 0 true ∷ fired 0 ∷ []) start)
run-IsLive_example = run-IsLive (sent ∷ session_answered 0 true ∷ fired 0 ∷ [])

run-stale_watchdog_example :
    IsTornDown
      (1 + 1)
      (run (timed_out 0) (run (abort_and_send 1) (busy_agent 1 (some 0) (0 ∷ []) [] 3)))
run-stale_watchdog_example = run-stale_watchdog 0 1 (some 0) (0 ∷ []) [] 3 (omega arith) refl

abbrev events : List Sse
events = part true ∷ asked ∷ session_idle false ∷ []

run-shell_race_example :
    IsOverlooked
      (0 + 1)
      (status_after false true)
      (run (shell_and_send 0 events false true) (before_session 0 none [] [] 0))
run-shell_race_example = run-shell_race 0 none [] [] 0 events false true refl
