-- ===== src/Agent/Race.antt =====
-- A shell command and a message that is sent while the command waits for its session.
use tuxwall.Base.{
  ℕ, ◌+◌, ◌≡◌, refl, sym, ap, ◌∙◌, Bool, true, false, Option, some, List, [], ◌∷◌, ◌++◌, not, every,
  if◌then◌else◌, arith,
}
use mathlib.Core.Path.{subst}
use tuxwall.Agent.{
  Sse, asked, other, message_error, part, session_idle, streamed, Agent, Status, Call, call, idle,
  busy, error, Event, accepted, sent, shell_sent, session_answered, message_answered,
  shell_session_answered, shell_answered, handle, run, is_armed, disarm, send, shell, ensuring,
  posting, shell_ensuring, shell_running, session_answer, message_answer, shell_session,
  shell_answer,
}
use tuxwall.Agent.Stale.{busy_agent, idle_agent, on_answer-await, eqb_refl}

-- Whether the handler of a turn lets the turn go on.
abbrev pub goes_on : Sse → Bool
goes_on asked = true
goes_on other = true
goes_on (message_error own) = not own
goes_on (part own) = true
goes_on (session_idle own) = not own

abbrev pub stream : List Sse → List Event
stream [] = []
stream (e ∷ es) = streamed e ∷ stream es

-- A shell command and, while it waits for its session, a message that the server takes on; then the
-- command gets its session, the message's turn its events, and the command its output, or an error;
-- `cards` says that a card waits for the user.
abbrev pub shell_and_send : ℕ → List Sse → (ok cards : Bool) → List Event
shell_and_send k es ok cards =
    shell_sent
    ∷ sent
    ∷ session_answered (k + 1) true
    ∷ message_answered (k + 1) accepted
    ∷ shell_session_answered k true false
    ∷ (stream es ++ shell_answered k ok cards ∷ [])

-- What the terminal shows after the command.
abbrev pub status_after : (ok cards : Bool) → Status
status_after ok false = idle
status_after true true = busy
status_after false true = error

-- The flag is down, while turn `n` runs: its handler and its watchdog are set.
abbrev pub IsOverlooked : ℕ → Status → Agent → Type 0
IsOverlooked n st s =
    (s.is_busy ≡ false) × (s.status ≡ st) × (s.on_event ≡ some n) × (is_armed n s.armed ≡ true)

-- An idle terminal that has no session.
abbrev pub before_session : ℕ → Option ℕ → List ℕ → List Call → ℕ → Agent
before_session k o ns cs m = record (idle_agent k o ns cs m) { session = false }

-- After the message is taken on and before the command gets its session.
abbrev both : ℕ → List ℕ → List Call → ℕ → Agent
both k ns cs m =
    busy_agent (k + 1 + 1) (some (k + 1)) ((k + 1) ∷ disarm (k + 1) ns) (call shell_ensuring k ∷ cs)
      m

-- After the command has its session, with the watchdogs that are set.
abbrev running : ℕ → List ℕ → List Call → ℕ → Agent
running k ns cs m = busy_agent (k + 1 + 1) (some (k + 1)) ns (call shell_running k ∷ cs) m

-- The watchdogs after an event of turn `n`, and after some.
abbrev armed_by : ℕ → Sse → List ℕ → List ℕ
armed_by n asked ns = n ∷ disarm n ns
armed_by n other ns = ns
armed_by n (message_error own) ns = ns
armed_by n (part own) ns = if own then n ∷ disarm n ns else ns
armed_by n (session_idle own) ns = ns

abbrev armed_after : ℕ → List Sse → List ℕ → List ℕ
armed_after n [] ns = ns
armed_after n (e ∷ es) ns = armed_after n es (armed_by n e ns)

armed_by-armed :
    (n : ℕ) (e : Sse) (ns : List ℕ) → is_armed n ns ≡ true → is_armed n (armed_by n e ns) ≡ true
armed_by-armed n asked ns h = ground (arith, eqb_refl n)
armed_by-armed n other ns h = h
armed_by-armed n (message_error own) ns h = h
armed_by-armed n (part true) ns h = ground (arith, eqb_refl n)
armed_by-armed n (part false) ns h = h
armed_by-armed n (session_idle own) ns h = h

armed_after-armed :
    (n : ℕ) (es : List Sse) (ns : List ℕ)
    → is_armed n ns ≡ true
    → is_armed n (armed_after n es ns) ≡ true
armed_after-armed n [] ns h = h
armed_after-armed n (e ∷ es) ns h =
    armed_after-armed n es (armed_by n e ns) (armed_by-armed n e ns h)

handle-streamed :
    (k : ℕ) (e : Sse) (ns : List ℕ) (cs : List Call) (m : ℕ)
    → goes_on e ≡ true
    → handle (streamed e) (running k ns cs m) ≡ running k (armed_by (k + 1) e ns) cs m
unfolding handle
handle-streamed k asked ns cs m h = refl
handle-streamed k other ns cs m h = refl
handle-streamed k (message_error true) ns cs m h = ground (arith, h)
handle-streamed k (message_error false) ns cs m h = refl
handle-streamed k (part true) ns cs m h = refl
handle-streamed k (part false) ns cs m h = refl
handle-streamed k (session_idle true) ns cs m h = ground (arith, h)
handle-streamed k (session_idle false) ns cs m h = refl

-- After the command.
abbrev afterwards : ℕ → List ℕ → List Call → ℕ → (ok cards : Bool) → Agent
afterwards k ns cs m ok cards =
    shell_answer ok cards (busy_agent (k + 1 + 1) (some (k + 1)) ns cs m)

run-stream :
    (k : ℕ) (es : List Sse) (ns : List ℕ) (cs : List Call) (m : ℕ) (ok cards : Bool)
    → every goes_on es ≡ true
    → run (stream es ++ shell_answered k ok cards ∷ []) (running k ns cs m)
      ≡ afterwards k (armed_after (k + 1) es ns) cs m ok cards
unfolding run handle
run-stream k [] ns cs m ok cards h =
    on_answer-await shell_running k (shell_answer ok cards)
      (busy_agent (k + 1 + 1) (some (k + 1)) ns cs m)
run-stream k (e ∷ es) ns cs m ok cards h =
    ap (run (stream es ++ shell_answered k ok cards ∷ []))
      (handle-streamed k e ns cs m (ground (arith, h)))
    ∙ run-stream k es (armed_by (k + 1) e ns) cs m ok cards (ground (arith, h))

run-shell_and_send :
    (k : ℕ) (o : Option ℕ) (ns : List ℕ) (cs : List Call) (m : ℕ) (es : List Sse) (ok cards : Bool)
    → every goes_on es ≡ true
    → run (shell_and_send k es ok cards) (before_session k o ns cs m)
      ≡ afterwards k (armed_after (k + 1) es ((k + 1) ∷ disarm (k + 1) ns)) cs m ok cards
unfolding run handle send shell
run-shell_and_send k o ns cs m es ok cards h =
    let end : List Event = stream es ++ shell_answered k ok cards ∷ [] in
    ap (λ s. run (message_answered (k + 1) accepted ∷ shell_session_answered k true false ∷ end) s)
      (on_answer-await ensuring (k + 1) (session_answer (k + 1) true)
        (record (busy_agent (k + 1 + 1) o ((k + 1) ∷ disarm (k + 1) ns) (call shell_ensuring k ∷ cs)
          m) { session = false }))
    ∙ ap (run (shell_session_answered k true false ∷ end))
        (on_answer-await posting (k + 1) (message_answer (k + 1) accepted) (both k ns cs m))
    ∙ ap (run end) (
        on_answer-await shell_ensuring k (shell_session k true false)
          (busy_agent (k + 1 + 1) (some (k + 1)) ((k + 1) ∷ disarm (k + 1) ns) cs m))
    ∙ run-stream k es ((k + 1) ∷ disarm (k + 1) ns) cs m ok cards h

afterwards-IsOverlooked :
    (k : ℕ) (ns : List ℕ) (cs : List Call) (m : ℕ) (ok cards : Bool)
    → is_armed (k + 1) ns ≡ true
    → IsOverlooked (k + 1) (status_after ok cards) (afterwards k ns cs m ok cards)
afterwards-IsOverlooked k ns cs m true true h = (refl, refl, refl, h)
afterwards-IsOverlooked k ns cs m true false h = (refl, refl, refl, h)
afterwards-IsOverlooked k ns cs m false true h = (refl, refl, refl, h)
afterwards-IsOverlooked k ns cs m false false h = (refl, refl, refl, h)

-- An idle terminal without a session, whatever else is under way: a shell command is sent; before it
-- has its session a message is sent, gets a session and is taken on; then the command gets its
-- session, the message's turn gets any events that do not end it, and the command ends, with output or
-- an error. The flag is down then, though the message's turn runs on, its handler and watchdog set; the
-- status is idle, but where a card waits for the user it is busy, or error if the command failed.
pub run-shell_race :
    (k : ℕ) (o : Option ℕ) (ns : List ℕ) (cs : List Call) (m : ℕ) (es : List Sse) (ok cards : Bool)
    → every goes_on es ≡ true
    → IsOverlooked
        (k + 1)
        (status_after ok cards)
        (run (shell_and_send k es ok cards) (before_session k o ns cs m))
run-shell_race k o ns cs m es ok cards h =
    let ms = (k + 1) ∷ disarm (k + 1) ns in
    subst (IsOverlooked (k + 1) (status_after ok cards))
      (sym (run-shell_and_send k o ns cs m es ok cards h))
      (afterwards-IsOverlooked k (armed_after (k + 1) es ms) cs m ok cards
        (armed_after-armed (k + 1) es ms (ground (arith, eqb_refl (k + 1)))))
