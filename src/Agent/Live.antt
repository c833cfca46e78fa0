-- ===== src/Agent/Live.antt =====
-- What ends the wait of a busy terminal.
use tuxwall.Base.{
  ℕ, ◌≡◌, refl, Bool, true, false, not, ◌&&◌, ◌||◌, Option, none, some, List, [], ◌∷◌, ◌==◌, any,
  arith, if-elim, Bool-cases, inl, inr,
}
use tuxwall.Agent.{
  Stage, ensuring, posting, checking, shell_ensuring, shell_running, aborting, Call, call, Agent,
  start, is_call, remove_call, finish, on_answer, send, Answer, failed, accepted, final,
  session_answer, message_answer, Sse, asked, other, message_error, part, session_idle, handler,
  to_handler, fire, check_answer, shell, shell_end, shell_session, shell_answer, abort,
  abort_answer, Event, sent, shell_sent, abort_pressed, session_answered, message_answered,
  streamed, fired, checked, shell_session_answered, shell_answered, abort_answered, handle, run,
  is_armed, stage_number, error,
}

-- The calls after which the terminal is idle, or a watchdog is set.
abbrev ends_stage : Stage → Bool
ends_stage ensuring = false
ends_stage posting = false
ends_stage checking = true
ends_stage shell_ensuring = false
ends_stage shell_running = true
ends_stage aborting = true

abbrev pub ends_wait : Call → Bool
ends_wait c = ends_stage c.stage

same_stage-ends :
    (a b : Stage) → (stage_number a == stage_number b) ≡ true → ends_stage a ≡ ends_stage b
same_stage-ends a b k = ground (arith, k)

abbrev pub some_armed : List ℕ → Bool
some_armed [] = false
some_armed (n ∷ ns) = true

abbrev pub IsLive : Agent → Type 0
IsLive s = (not s.is_busy || (some_armed s.armed || any ends_wait s.calls)) ≡ true

-- A turn that waits for its session or for the answer to its message does not count as such a call.
remove_call-ends :
    (st : Stage) (n : ℕ) (cs : List Call)
    → ends_wait (call st n) ≡ false
    → any ends_wait (remove_call st n cs) ≡ any ends_wait cs
unfolding remove_call
remove_call-ends st n [] e = refl
remove_call-ends st n (c ∷ cs) e = elim (Bool-cases (is_call st n c)) [
  | inl k ↦ ground (arith, k, same_stage-ends c.stage st, e)
  | inr k ↦ rw (k, remove_call-ends st n cs e) refl
]

finish-IsLive : (err : Bool) (n : ℕ) (s : Agent) → IsLive (finish err n s)
finish-IsLive true n s = refl
finish-IsLive false n s = refl

send-IsLive : (s : Agent) → IsLive s → IsLive (send s)
unfolding send
send-IsLive s h = if-elim IsLive s.is_busy s _ (λ e. h) (λ e. refl)

shell-IsLive : (s : Agent) → IsLive s → IsLive (shell s)
unfolding shell
shell-IsLive s h = if-elim IsLive s.is_busy s _ (λ e. h) (λ e. ground (arith, e))

abort-IsLive : (s : Agent) → IsLive s → IsLive (abort s)
unfolding abort
abort-IsLive s h = if-elim IsLive (s.session && s.is_busy) _ s (λ e. ground (arith, e)) (λ e. h)

fire-IsLive : (n : ℕ) (s : Agent) → IsLive s → IsLive (fire n s)
unfolding fire
fire-IsLive n s h =
    if-elim IsLive (is_armed n s.armed) _ s
      (λ e. if-elim IsLive s.is_busy _ _ (λ b. ground (arith, b)) (λ b. ground (arith, b))) (λ e. h)

handler-IsLive : (n : ℕ) (e : Sse) (s : Agent) → IsLive s → IsLive (handler n e s)
handler-IsLive n asked s h = ground arith
handler-IsLive n other s h = h
handler-IsLive n (message_error true) s h = finish-IsLive true n s
handler-IsLive n (message_error false) s h = h
handler-IsLive n (part true) s h = ground arith
handler-IsLive n (part false) s h = h
handler-IsLive n (session_idle true) s h = finish-IsLive false n s
handler-IsLive n (session_idle false) s h = h

to_handler-IsLive : (o : Option ℕ) (e : Sse) (s : Agent) → IsLive s → IsLive (to_handler o e s)
to_handler-IsLive none e s h = h
to_handler-IsLive (some n) e s h =
    if-elim IsLive s.is_busy _ s (λ b. handler-IsLive n e s h) (λ b. h)

-- The state after the call is taken off the list, when that does not touch what ends the wait.
taken-IsLive :
    (st : Stage) (n : ℕ) (s : Agent)
    → ends_wait (call st n) ≡ false
    → IsLive s
    → IsLive (record s { calls = remove_call st n s.calls })
taken-IsLive st n s e h = ground (arith, remove_call-ends st n s.calls e, h)

on_answer-IsLive :
    (st : Stage) (n : ℕ) (f : Agent → Agent) (s : Agent)
    → IsLive (f (record s { calls = remove_call st n s.calls }))
    → IsLive s
    → IsLive (on_answer st n f s)
unfolding on_answer
on_answer-IsLive st n f s g h =
    if-elim IsLive (any (is_call st n) s.calls) (f (record s { calls = remove_call st n s.calls }))
      s (λ e. g) (λ e. h)

shell_end-IsLive : (cards : Bool) (s : Agent) → IsLive (shell_end cards s)
shell_end-IsLive true s = refl
shell_end-IsLive false s = refl

shell_session-IsLive : (n : ℕ) (ok cards : Bool) (s : Agent) → IsLive (shell_session n ok cards s)
shell_session-IsLive n true cards s = ground arith
shell_session-IsLive n false cards s = shell_end-IsLive cards (record s { status = error })

shell_answer-IsLive : (ok cards : Bool) (s : Agent) → IsLive (shell_answer ok cards s)
shell_answer-IsLive true cards s = shell_end-IsLive cards s
shell_answer-IsLive false cards s = shell_end-IsLive cards (record s { status = error })

session_answer-IsLive : (n : ℕ) (ok : Bool) (s : Agent) → IsLive s → IsLive (session_answer n ok s)
session_answer-IsLive n true s h = h
session_answer-IsLive n false s h = finish-IsLive true n s

message_answer-IsLive : (n : ℕ) (a : Answer) (s : Agent) → IsLive s → IsLive (message_answer n a s)
message_answer-IsLive n failed s h = finish-IsLive true n s
message_answer-IsLive n accepted s h = h
message_answer-IsLive n final s h = finish-IsLive false n s

check_answer-IsLive : (n : ℕ) (waiting : Bool) (s : Agent) → IsLive (check_answer n waiting s)
check_answer-IsLive n true s = ground arith
check_answer-IsLive n false s = finish-IsLive true n s

handle-IsLive : (e : Event) (s : Agent) → IsLive s → IsLive (handle e s)
unfolding handle
handle-IsLive sent s h = send-IsLive s h
handle-IsLive shell_sent s h = shell-IsLive s h
handle-IsLive abort_pressed s h = abort-IsLive s h
handle-IsLive (session_answered n ok) s h =
    on_answer-IsLive ensuring n (session_answer n ok) s
      (session_answer-IsLive n ok _ (taken-IsLive ensuring n s refl h)) h
handle-IsLive (message_answered n a) s h =
    on_answer-IsLive posting n (message_answer n a) s
      (message_answer-IsLive n a _ (taken-IsLive posting n s refl h)) h
handle-IsLive (streamed e) s h = to_handler-IsLive s.on_event e s h
handle-IsLive (fired n) s h = fire-IsLive n s h
handle-IsLive (checked n w) s h =
    on_answer-IsLive checking n (check_answer n w) s (check_answer-IsLive n w _) h
handle-IsLive (shell_session_answered n ok c) s h =
    on_answer-IsLive shell_ensuring n (shell_session n ok c) s (shell_session-IsLive n ok c _) h
handle-IsLive (shell_answered n ok c) s h =
    on_answer-IsLive shell_running n (shell_answer ok c) s (shell_answer-IsLive ok c _) h
handle-IsLive (abort_answered n) s h = on_answer-IsLive aborting n abort_answer s refl h

run_from-IsLive : (es : List Event) (s : Agent) → IsLive s → IsLive (run es s)
unfolding run
run_from-IsLive [] s h = h
run_from-IsLive (e ∷ es) s h = run_from-IsLive es (handle e s) (handle-IsLive e s h)

-- In whatever order turns and shell commands start, answers and events come, watchdogs go off and
-- aborts are asked for: while the terminal is busy, a watchdog is set, or a watchdog's check, a shell
-- command or an abort is under way.
pub run-IsLive : (es : List Event) → IsLive (run es start)
run-IsLive es = run_from-IsLive es start refl
