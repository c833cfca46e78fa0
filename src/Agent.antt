-- ===== src/Agent.antt =====
-- www/scripts/dashboard.js: the turns of the agent terminal, `sendAgentMessage` with its watchdog and
-- its `finish`, `ocShell`, `ocAbort` and `agentEvents`. An async function is cut at its `await`s: what
-- it waits for is a call under way, and its answer is an event, so that answers, timers and the
-- user's input come in any order. A task, a turn or a shell command, is named by its number.
pub mod Live
pub mod Stale
pub mod Race
mod Tests
use tuxwall.Base.{
  ℕ, ◌+◌, Bool, true, false, not, ◌&&◌, ◌||◌, Option, none, some, List, [], ◌∷◌, ◌==◌, keep, any,
  if◌then◌else◌,
}

-- `ocSetState`
pub data Status : Type 0 where
  idle busy error : Status

-- Where a function waits: a turn for its session, for the answer to its message, and its watchdog
-- for the lists of what is pending; a shell command for its session and its output; an abort.
pub data Stage : Type 0 where
  ensuring posting checking shell_ensuring shell_running aborting : Stage

abbrev pub stage_number : Stage → ℕ
stage_number ensuring = 0
stage_number posting = 1
stage_number checking = 2
stage_number shell_ensuring = 3
stage_number shell_running = 4
stage_number aborting = 5

pub record Call : Type 0 where
  pub stage : Stage
  pub task : ℕ

abbrev pub call : Stage → ℕ → Call
call st n = record { stage = st; task = n }

pub record Agent : Type 0 where
  pub next : ℕ
  pub is_busy : Bool
  pub status : Status
  -- whether `agent.sessionID` is set
  pub session : Bool
  -- the turn whose handler is `agent.onEvent`
  pub on_event : Option ℕ
  -- the turns whose watchdog is set
  pub armed : List ℕ
  pub calls : List Call
  pub msgs : ℕ

abbrev pub start : Agent
start = record {
  next = 0;
  is_busy = false;
  status = idle;
  session = false;
  on_event = none;
  armed = [];
  calls = [];
  msgs = 0;
}

abbrev pub is_call : Stage → ℕ → Call → Bool
is_call st n c = stage_number c.stage == stage_number st && c.task == n

pub remove_call : Stage → ℕ → List Call → List Call
remove_call st n [] = []
remove_call st n (c ∷ cs) = if is_call st n c then cs else c ∷ remove_call st n cs

abbrev pub disarm : ℕ → List ℕ → List ℕ
disarm n = keep (λ m. not (m == n))

abbrev pub is_armed : ℕ → List ℕ → Bool
is_armed n = any (λ m. m == n)

-- `bumpWatchdog` of turn `n`
abbrev pub bump : ℕ → Agent → Agent
bump n s = record s { armed = n ∷ disarm n s.armed }

-- `finish` of turn `n`, with an error or without
abbrev pub finish : Bool → ℕ → Agent → Agent
finish true n s = record s {
  on_event = none;
  armed = disarm n s.armed;
  status = error;
  is_busy = false;
}
finish false n s = record s {
  on_event = none;
  armed = disarm n s.armed;
  status = idle;
  msgs = s.msgs + 1;
  is_busy = false;
}

-- What goes on after an answer, if something waits for it.
unfoldable pub on_answer : Stage → ℕ → (Agent → Agent) → Agent → Agent
unfolding remove_call
on_answer st n f s =
    if any (is_call st n) s.calls then f (record s { calls = remove_call st n s.calls }) else s

abbrev pub await : Stage → ℕ → Agent → Agent
await st n s = record s { calls = call st n ∷ s.calls }

-- `sendAgentMessage` up to `await agentEnsureSession()`
unfoldable pub send : Agent → Agent
send s =
    if s.is_busy
    then s
    else await ensuring s.next
        (bump s.next (record s { next = s.next + 1; is_busy = true; status = busy }))

-- The answers that a turn gets.
pub data Answer : Type 0 where
  failed : Answer
  -- the message is being worked on, and events will come
  accepted : Answer
  -- the server answered in blocking mode
  final : Answer

abbrev pub session_answer : ℕ → Bool → Agent → Agent
session_answer n true s = await posting n (record s { session = true; on_event = some n })
session_answer n false s = finish true n s

abbrev pub message_answer : ℕ → Answer → Agent → Agent
message_answer n failed s = finish true n s
message_answer n accepted s = s
message_answer n final s = finish false n s

-- An event of the stream, as `agent.onEvent` tells them apart. `own` says that it is of the turn's
-- session.
pub data Sse : Type 0 where
  -- `permission.asked`, `question.asked`
  asked : Sse
  -- `question.replied`, `question.rejected` and whatever is not looked at
  other : Sse
  message_error : (own : Bool) → Sse
  -- a part or a delta of the turn's message
  part : (own : Bool) → Sse
  session_idle : (own : Bool) → Sse

abbrev pub handler : ℕ → Sse → Agent → Agent
handler n asked s = bump n s
handler n other s = s
handler n (message_error true) s = finish true n s
handler n (message_error false) s = s
handler n (part true) s = bump n s
handler n (part false) s = s
handler n (session_idle true) s = finish false n s
handler n (session_idle false) s = s

-- `es.onmessage`; the handler does nothing once the turn was aborted
abbrev pub to_handler : Option ℕ → Sse → Agent → Agent
to_handler none e s = s
to_handler (some n) e s = if s.is_busy then handler n e s else s

-- the watchdog of turn `n` goes off
unfoldable pub fire : ℕ → Agent → Agent
fire n s =
    if is_armed n s.armed
    then if s.is_busy
      then await checking n (record s { armed = disarm n s.armed })
      else record s { armed = disarm n s.armed }
    else s

-- The rest of the watchdog, when it knows whether a permission or a question waits for the user.
abbrev pub check_answer : ℕ → Bool → Agent → Agent
check_answer n true s = bump n s
check_answer n false s = finish true n s

-- `ocShell` up to `await agentEnsureSession()`
unfoldable pub shell : Agent → Agent
shell s = if s.is_busy then s else await shell_ensuring s.next (record s { next = s.next + 1 })

-- `finally` of `ocShell`; `cards` says that a card on the screen still asks
abbrev pub shell_end : Bool → Agent → Agent
shell_end true s = record s { is_busy = false }
shell_end false s = record s { is_busy = false; status = idle }

abbrev pub shell_session : ℕ → Bool → Bool → Agent → Agent
shell_session n true cards s =
    await shell_running n (record s { session = true; is_busy = true; status = busy })
shell_session n false cards s = shell_end cards (record s { status = error })

abbrev pub shell_answer : Bool → Bool → Agent → Agent
shell_answer true cards s = shell_end cards s
shell_answer false cards s = shell_end cards (record s { status = error })

-- `ocAbort` up to its request
unfoldable pub abort : Agent → Agent
abort s =
    if s.session && s.is_busy
    then await aborting s.next (record s { next = s.next + 1; on_event = none })
    else s

-- Its rest, whatever the answer is; what it does with the cards is in Cards.
abbrev pub abort_answer : Agent → Agent
abort_answer s = record s { is_busy = false; status = idle }

pub data Event : Type 0 where
  sent shell_sent abort_pressed : Event
  session_answered : ℕ → (ok : Bool) → Event
  message_answered : ℕ → Answer → Event
  streamed : Sse → Event
  fired : ℕ → Event
  checked : ℕ → (waiting : Bool) → Event
  shell_session_answered : ℕ → (ok cards : Bool) → Event
  shell_answered : ℕ → (ok cards : Bool) → Event
  abort_answered : ℕ → Event

unfoldable pub handle : Event → Agent → Agent
unfolding send shell abort on_answer fire
handle sent s = send s
handle shell_sent s = shell s
handle abort_pressed s = abort s
handle (session_answered n ok) s = on_answer ensuring n (session_answer n ok) s
handle (message_answered n a) s = on_answer posting n (message_answer n a) s
handle (streamed e) s = to_handler s.on_event e s
handle (fired n) s = fire n s
handle (checked n waiting) s = on_answer checking n (check_answer n waiting) s
handle (shell_session_answered n ok cards) s =
    on_answer shell_ensuring n (shell_session n ok cards) s
handle (shell_answered n ok cards) s = on_answer shell_running n (shell_answer ok cards) s
handle (abort_answered n) s = on_answer aborting n abort_answer s

unfoldable pub run : List Event → Agent → Agent
unfolding handle
run [] s = s
run (e ∷ es) s = run es (handle e s)
