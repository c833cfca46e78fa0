-- ===== src/Updates.antt =====
-- www/scripts/dashboard.js: the card of the system updates and its polling, `renderUpdates`,
-- `startUpdPoll`, `stopUpdPoll`, `refreshUpdates` and the clicks on "Check" and "Apply". Each async
-- function is cut at its awaits: what it waits for is counted, and the answer is an event.
pub mod Shown
pub mod Stuck
mod Tests
use tuxwall.Base.{
  ℕ, zero, suc, ◌+◌, ◌-◌, min, String, Bool, true, false, not, ◌&&◌, ◌||◌, Option, none, some, List,
  [], ◌∷◌, ltb, ◌==◌, if◌then◌else◌,
}

-- What the server says; `upgradable` is none where it is negative, and a time is none
-- where there is none; percentages are whole numbers, exit codes are not negative. The texts that are only
-- shown (distribution, kernel, phase, log) are left out.
pub record Report : Type 0 where
  pub upgradable : Option ℕ
  pub last_check : Option ℕ
  pub last_upgrade : Option ℕ
  pub running : Bool
  pub percent : Option ℕ
  pub exit_code : Option ℕ

pub data Chip : Type 0 where
  not_checked unknown up_to_date : Chip
  pending : ℕ → Chip

pub data Note : Type 0 where
  no_note is_up_to_date run_a_check : Note
  available : ℕ → Note

pub data Status : Type 0 where
  no_status upgraded checked : Status
  at_percent failed_with : ℕ → Status

pub record Card : Type 0 where
  pub progress_hidden : Bool
  pub buttons_disabled : Bool
  pub chip : Chip
  pub note : Note
  pub bar : ℕ
  pub status : Status

abbrev pub is_some {ℓ} : {A : Type ℓ} → Option A → Bool
is_some none = false
is_some (some a) = true

abbrev pub chip_of : Option ℕ → Option ℕ → Chip
chip_of none none = not_checked
chip_of none (some t) = unknown
chip_of (some n) t = if n == 0 then up_to_date else pending n

abbrev pub idle_note : Option ℕ → Option ℕ → Note
idle_note none none = run_a_check
idle_note none (some t) = no_note
idle_note (some n) t = if n == 0 then is_up_to_date else available n

abbrev pub percent_of : Option ℕ → ℕ
percent_of none = 0
percent_of (some p) = min 100 p

abbrev pub end_status : Option ℕ → Option ℕ → Status
end_status none upgrade = no_status
end_status (some e) none = if e == 0 then checked else failed_with e
end_status (some e) (some t) = if e == 0 then upgraded else failed_with e

-- `renderUpdates`; the width of the bar stays where nothing runs.
unfoldable pub render_updates : Report → Card → Card
render_updates d c = record {
  progress_hidden = not d.running;
  buttons_disabled = d.running;
  chip = chip_of d.upgradable d.last_check;
  note = if d.running then no_note else idle_note d.upgradable d.last_check;
  bar = if d.running then percent_of d.percent else c.bar;
  status =
      if d.running
      then at_percent (percent_of d.percent)
      else end_status d.exit_code d.last_upgrade;
}

-- The page, with the polls, refreshes and clicks whose answers have not come.
pub record Page : Type 0 where
  pub card : Card
  pub timer : Bool
  pub polls : ℕ
  pub refreshes : ℕ
  pub clicks : ℕ
  pub banner : Option String

abbrev pub start : Page
start = record {
  card = record {
    progress_hidden = true;
    buttons_disabled = false;
    chip = not_checked;
    note = no_note;
    bar = 0;
    status = no_status;
  };
  timer = false;
  polls = 0;
  refreshes = 0;
  clicks = 0;
  banner = none;
}

abbrev pub refresh_updates : Page → Page
refresh_updates s = record s { refreshes = s.refreshes + 1 }

-- An answer, or the text of the error.
pub data Reply : Type 0 where
  good : Report → Reply
  bad : String → Reply

abbrev pub show : Report → Page → Page
unfolding render_updates
show d s = record s { card = render_updates d s.card }

-- A poll after its `await`
unfoldable pub poll_answered : Reply → Page → Page
unfolding show
poll_answered (good d) s = record (show d s) { timer = s.timer && d.running }
poll_answered (bad e) s = record s { banner = some e; timer = false }

-- `refreshUpdates` after its `await`
unfoldable pub refresh_answered : Reply → Page → Page
unfolding show
refresh_answered (good d) s = record (show d s) { timer = s.timer || d.running }
refresh_answered (bad e) s = record s { banner = some e }

-- The click on "Check", or on "Apply", after the answer to its post.
unfoldable pub click_answered : Option String → Page → Page
click_answered none s = refresh_updates (record s { timer = true })
click_answered (some e) s = record s { banner = some e }

pub data Event : Type 0 where
  opened timer_due clicked : Event
  poll_came refresh_came : Reply → Event
  click_came : (error : Option String) → Event

-- An answer comes only to what was asked.
unfoldable pub handle : Event → Page → Page
unfolding poll_answered refresh_answered click_answered
handle opened s = refresh_updates s
handle timer_due s = if s.timer then record s { polls = s.polls + 1 } else s
handle clicked s = if s.card.buttons_disabled then s else record s { clicks = s.clicks + 1 }
handle (poll_came r) s =
    if s.polls == 0 then s else poll_answered r (record s { polls = s.polls - 1 })
handle (refresh_came r) s =
    if s.refreshes == 0 then s else refresh_answered r (record s { refreshes = s.refreshes - 1 })
handle (click_came e) s =
    if s.clicks == 0 then s else click_answered e (record s { clicks = s.clicks - 1 })

unfoldable pub run : List Event → Page → Page
unfolding handle
run [] s = s
run (e ∷ es) s = run es (handle e s)
