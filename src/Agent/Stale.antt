-- ===== src/Agent/Stale.antt =====
-- What is left of a turn that was aborted.
use mathlib.Core.Path.{subst, sym}
use tuxwall.Base.{
  ℕ, ◌+◌, ◌<◌, ◌≡◌, refl, ap, ◌∙◌, Bool, true, false, ◌&&◌, Option, none, some, List, [], ◌∷◌, ◌==◌,
  every, arith, if-elim,
}
use tuxwall.Agent.{
  Agent, Call, error, busy, Event, accepted, sent, shell_sent, abort_pressed, session_answered,
  message_answered, streamed, fired, checked, shell_session_answered, shell_answered,
  abort_answered, handle, run, is_armed, disarm, send, abort, fire, on_answer, remove_call, idle,
  Sse, to_handler, failed, final, Stage, stage_number, aborting, ensuring, posting, checking, await,
  abort_answer, session_answer, message_answer, check_answer,
}

-- The events that only bring news of turns, or ask for an abort.
abbrev pub is_passive : Event → Bool
is_passive abort_pressed = true
is_passive (streamed e) = true
is_passive (fired n) = true
is_passive (message_answered n accepted) = true
is_passive _ = false

abbrev pub IsAlike : Agent → Agent → Type 0
IsAlike s t =
    (s.is_busy ≡ t.is_busy)
    × (s.status ≡ t.status)
    × (s.msgs ≡ t.msgs)
    × (s.on_event ≡ t.on_event)
    × (s.next ≡ t.next)

-- A turn that runs or waits, on a terminal that is busy and has a session.
abbrev pub busy_agent : ℕ → Option ℕ → List ℕ → List Call → ℕ → Agent
busy_agent next on_event armed calls msgs = record {
  next = next;
  is_busy = true;
  status = busy;
  session = true;
  on_event = on_event;
  armed = armed;
  calls = calls;
  msgs = msgs;
}

abbrev pub idle_agent : ℕ → Option ℕ → List ℕ → List Call → ℕ → Agent
idle_agent next on_event armed calls msgs = record (busy_agent next on_event armed calls msgs) {
  is_busy = false;
  status = idle;
}

is_armed-disarm :
    (n m : ℕ) (ns : List ℕ) → (n == m) ≡ false → is_armed n (disarm m ns) ≡ is_armed n ns
is_armed-disarm n m [] e = refl
is_armed-disarm n m (k ∷ ns) e = ground (arith, e, is_armed-disarm n m ns e)

pub eqb_refl : (k : ℕ) → (k == k) ≡ true
eqb_refl k = ground arith

same_stage_refl : (st : Stage) → (stage_number st == stage_number st) ≡ true
same_stage_refl st = ground arith

-- The answer to a call that was made just now.
pub on_answer-await :
    (st : Stage) (n : ℕ) (f : Agent → Agent) (s : Agent) → on_answer st n f (await st n s) ≡ f s
unfolding on_answer remove_call
on_answer-await st n f s = rw (same_stage_refl st, eqb_refl n) refl

-- The abort of the task at hand, and a new message that the server takes on.
abbrev pub abort_and_send : ℕ → List Event
abort_and_send k =
    abort_pressed
    ∷ abort_answered k
    ∷ sent
    ∷ session_answered (k + 1) true
    ∷ message_answered (k + 1) accepted
    ∷ []

run-abort_and_send :
    (k : ℕ) (o : Option ℕ) (ns : List ℕ) (cs : List Call) (m : ℕ)
    → run (abort_and_send k) (busy_agent k o ns cs m)
      ≡ busy_agent (k + 1 + 1) (some (k + 1)) ((k + 1) ∷ disarm (k + 1) ns) cs m
unfolding run handle send abort
run-abort_and_send k o ns cs m =
    ap
      (λ s.
        handle (message_answered (k + 1) accepted)
          (handle (session_answered (k + 1) true) (handle sent s)))
      (on_answer-await aborting k abort_answer (busy_agent (k + 1) none ns cs m))
    ∙ ap (handle (message_answered (k + 1) accepted)) (
        on_answer-await ensuring (k + 1) (session_answer (k + 1) true)
          (busy_agent (k + 1 + 1) none ((k + 1) ∷ disarm (k + 1) ns) cs m))
    ∙ on_answer-await posting (k + 1) (message_answer (k + 1) accepted)
        (busy_agent (k + 1 + 1) (some (k + 1)) ((k + 1) ∷ disarm (k + 1) ns) cs m)

-- The watchdog of turn `n` goes off, and nothing waits for the user.
abbrev pub timed_out : ℕ → List Event
timed_out n = fired n ∷ checked n false ∷ []

fire-armed :
    (n k : ℕ) (o : Option ℕ) (ns : List ℕ) (cs : List Call) (m : ℕ)
    → is_armed n ns ≡ true
    → fire n (busy_agent k o ns cs m) ≡ await checking n (busy_agent k o (disarm n ns) cs m)
unfolding fire
fire-armed n k o ns cs m a = rw a refl

run-timed_out :
    (n k : ℕ) (o : Option ℕ) (ns : List ℕ) (cs : List Call) (m : ℕ)
    → is_armed n ns ≡ true
    → run (timed_out n) (busy_agent k o ns cs m)
      ≡ record (busy_agent k none (disarm n (disarm n ns)) cs m) { is_busy = false; status = error }
unfolding run handle
run-timed_out n k o ns cs m a =
    ap (handle (checked n false)) (fire-armed n k o ns cs m a)
    ∙ on_answer-await checking n (check_answer n false) (busy_agent k o (disarm n ns) cs m)

-- The terminal reports an error and listens to no turn, while the watchdog of turn `n` is set.
abbrev pub IsTornDown : ℕ → Agent → Type 0
IsTornDown n s =
    (s.is_busy ≡ false) × (s.status ≡ error) × (s.on_event ≡ none) × (is_armed n s.armed ≡ true)

-- The watchdog of turn `n` is set when the task is aborted, and the user sends a new message, which
-- the server works on: when that watchdog goes off and nothing waits for the user, the new turn is
-- ended with an error, its handler gone, while its own watchdog is still set.
pub run-stale_watchdog :
    (n k : ℕ) (o : Option ℕ) (ns : List ℕ) (cs : List Call) (m : ℕ)
    → n < k
    → is_armed n ns ≡ true
    → IsTornDown (k + 1) (run (timed_out n) (run (abort_and_send k) (busy_agent k o ns cs m)))
run-stale_watchdog n k o ns cs m l a =
    let ms = (k + 1) ∷ disarm (k + 1) ns in
    let set : is_armed n ms ≡ true =
      ground (arith, l, a, is_armed-disarm n (k + 1) ns (ground arith)) in
    let other : (k + 1 == n) ≡ false = ground (arith, l) in
    let e =
      ap (run (timed_out n)) (run-abort_and_send k o ns cs m)
      ∙ run-timed_out n (k + 1 + 1) (some (k + 1)) ms cs m set in
    (
      ap (λ s. s.is_busy) e,
      ap (λ s. s.status) e,
      ap (λ s. s.on_event) e,
      ap (λ s. is_armed (k + 1) s.armed) e
          ∙ is_armed-disarm (k + 1) n (disarm n ms) other
          ∙ is_armed-disarm (k + 1) n ms other
          ∙ ground (arith, eqb_refl (k + 1)),
    )

to_handler-idle : (o : Option ℕ) (e : Sse) (s : Agent) → s.is_busy ≡ false → to_handler o e s ≡ s
to_handler-idle none e s b = refl
to_handler-idle (some n) e s b =
    if-elim (λ t. t ≡ s) s.is_busy _ s (λ c. ground (arith, b, c)) (λ c. refl)

fire-IsAlike : (n : ℕ) (s : Agent) → s.is_busy ≡ false → IsAlike (fire n s) s
unfolding fire
fire-IsAlike n s b =
    if-elim (λ t. IsAlike t s) (is_armed n s.armed) _ s
      (λ a.
        if-elim (λ t. IsAlike t s) s.is_busy _ (record s { armed = disarm n s.armed })
          (λ c. ground (arith, b, c)) (λ c. (refl, refl, refl, refl, refl)))
      (λ a. (refl, refl, refl, refl, refl))

passive-IsAlike :
    (e : Event) (s : Agent) → is_passive e ≡ true → s.is_busy ≡ false → IsAlike (handle e s) s
unfolding handle abort fire on_answer
passive-IsAlike sent s p b = ground (arith, p)
passive-IsAlike shell_sent s p b = ground (arith, p)
passive-IsAlike abort_pressed s p b =
    if-elim (λ t. IsAlike t s) (s.session && s.is_busy) _ s (λ e. ground (arith, e, b))
      (λ e. (refl, refl, refl, refl, refl))
passive-IsAlike (session_answered n ok) s p b = ground (arith, p)
passive-IsAlike (message_answered n failed) s p b = ground (arith, p)
passive-IsAlike (message_answered n accepted) s p b =
    if-elim (λ t. IsAlike t s) _ _ s (λ e. (refl, refl, refl, refl, refl))
      (λ e. (refl, refl, refl, refl, refl))
passive-IsAlike (message_answered n final) s p b = ground (arith, p)
passive-IsAlike (streamed e) s p b =
    subst (λ t. IsAlike t s) (sym (to_handler-idle s.on_event e s b)) (refl, refl, refl, refl, refl)
passive-IsAlike (fired n) s p b = fire-IsAlike n s b
passive-IsAlike (checked n w) s p b = ground (arith, p)
passive-IsAlike (shell_session_answered n ok c) s p b = ground (arith, p)
passive-IsAlike (shell_answered n ok c) s p b = ground (arith, p)
passive-IsAlike (abort_answered n) s p b = ground (arith, p)

-- While the terminal is not busy, events of the stream, messages taken on, watchdogs that go off and
-- aborts change neither that nor the state shown, the count of turns or the handler.
pub run-passive :
    (es : List Event) (s : Agent)
    → s.is_busy ≡ false
    → every is_passive es ≡ true
    → IsAlike (run es s) s
unfolding run
run-passive [] s b p = (refl, refl, refl, refl, refl)
run-passive (e ∷ es) s b p =
    let h = passive-IsAlike e s (ground (arith, p)) b in
    let k = run-passive es (handle e s) (h.0 ∙ b) (ground (arith, p)) in
    (k.0 ∙ h.0, k.1 ∙ h.1, k.2 ∙ h.2, k.3 ∙ h.3, k.4 ∙ h.4)
