-- ===== src/Posture.antt =====
-- www/scripts/dashboard.js: the posture cards of the overview, `refreshOvPosture` and `renderOvPosture`.
-- Times are seconds, and no backup is younger than the clock says; percentages are whole numbers, not
-- negative. The wording of the cards, sizes, dates and the width of a bar's pieces are left out. A
-- text that is missing is empty, a number that is missing is none, and so is a negative count of
-- packages. The answer about the services is also given to their own view (Services).
pub mod Ranking
pub mod Bans
mod Tests
use tuxwall.Base.{
  ℕ, zero, suc, ◌+◌, ◌-◌, ◌*◌, ◌/◌, min, max, String, Bool, true, false, not, ◌&&◌, ◌||◌, Option,
  none, some, List, [], ◌∷◌, ◌++◌, map, keep, length, take, ltb, leb, ◌==◌, str_eq, if◌then◌else◌,
}
use tuxwall.Base.Sort.{sort}
use tuxwall.Tools.{NameCount, count_name, or_text}

pub record Updates : Type 0 where
  pub upgradable : Option ℕ
  pub running : Bool
  pub percent : Option ℕ
  pub phase : String

pub record Decision : Type 0 where
  pub scenario : String
  pub until : Option ℕ

pub record Backups : Type 0 where
  -- the age of the newest one in seconds, if there is one
  pub age : Option ℕ
  pub count : ℕ

-- `ovPosture`: what the last answers said.
pub record Posture : Type 0 where
  pub updates : Option Updates
  pub exposed : Option ℕ
  pub dmz_count : ℕ
  pub bans : Option ℕ
  pub decisions : List Decision
  pub backups : Option Backups
  pub failed_units : ℕ

abbrev pub start : Posture
start = record {
  updates = none;
  exposed = none;
  dmz_count = 0;
  bans = none;
  decisions = [];
  backups = none;
  failed_units = 0;
}

-- One round of the six requests; none where a request failed. A forward is given by whether it is
-- enabled, a backup by its time, and a service by its state.
pub record Round : Type 0 where
  pub updates : Option Updates
  pub forwards : Option (List Bool)
  pub dmz : Option ℕ
  pub crowdsec : Option (List Decision)
  pub backups : Option (List ℕ)
  pub services : Option (List String)

abbrev pub or_old {ℓ} : {A : Type ℓ} → Option A → Option A → Option A
or_old none old = old
or_old (some a) old = some a

abbrev pub set_exposed : Option (List Bool) → Posture → Posture
set_exposed none s = s
set_exposed (some rules) s = record s { exposed = some (length (keep (λ b. b) rules)) }

abbrev pub set_dmz : Option ℕ → Posture → Posture
set_dmz none s = s
set_dmz (some n) s = record s { dmz_count = n }

abbrev pub set_bans : Option (List Decision) → Posture → Posture
set_bans none s = s
set_bans (some ds) s = record s { bans = some (length ds); decisions = ds }

pub newest_of : List ℕ → ℕ
newest_of [] = 0
newest_of (t ∷ ts) = max t (newest_of ts)

abbrev pub backups_of : ℕ → List ℕ → Backups
unfolding newest_of
backups_of now list = record {
  age = if newest_of list == 0 then none else some (now - newest_of list);
  count = length list;
}

abbrev pub set_backups : ℕ → Option (List ℕ) → Posture → Posture
set_backups now none s = s
set_backups now (some list) s = record s { backups = some (backups_of now list) }

abbrev pub set_failed : Option (List String) → Posture → Posture
set_failed none s = s
set_failed (some states) s = record s {
  failed_units = length (keep (λ a. str_eq a "failed") states);
}

-- `refreshOvPosture`
unfoldable pub refresh_ov_posture : ℕ → Round → Posture → Posture
refresh_ov_posture now r s = set_failed r.services (
    set_backups now r.backups (
      set_bans r.crowdsec (
        set_dmz r.dmz
          (set_exposed r.forwards (record s { updates = or_old r.updates s.updates })))))

pub data Tone : Type 0 where
  ok info warn : Tone

abbrev pub or_zero : Option ℕ → ℕ
or_zero none = 0
or_zero (some n) = n

-- The card of the updates: a text, its tone, the chip, and the bar while an upgrade runs.
pub data UpdateValue : Type 0 where
  working up_to_date : UpdateValue
  percent packages : ℕ → UpdateValue

pub record UpdateCard : Type 0 where
  pub value : UpdateValue
  pub tone : Tone
  pub chip : String
  pub bar : Option ℕ

abbrev pub progress_value : Option ℕ → UpdateValue
progress_value none = working
progress_value (some p) = percent p

unfoldable pub updates_card : Updates → UpdateCard
updates_card u =
    let n = or_zero u.upgradable in
    record {
      value =
          if u.running then progress_value u.percent else if n == 0 then up_to_date else packages n;
      tone = if n == 0 && not u.running then ok else if ltb 30 n then warn else info;
      chip =
          if u.running
          then "Updating"
          else if n == 0
          then "Clean"
          else if ltb 30 n
          then "Attention"
          else "Pending";
      bar = if u.running then some (max 2 (min 100 (or_zero u.percent))) else none;
    }

-- The card of what can be reached: the two parts of the bar, the tone and the chip.
pub record ExposedCard : Type 0 where
  pub total : ℕ
  pub forwards : ℕ
  pub dmz : ℕ
  pub tone : Tone
  pub chip : String

unfoldable pub exposed_card : ℕ → ℕ → ExposedCard
exposed_card n d = record {
  total = n + d;
  forwards = n;
  dmz = d;
  tone = if not (d == 0) then warn else if not (n == 0) then info else ok;
  chip = if not (d == 0) then "DMZ live" else if not (n == 0) then "Forwarded" else "Sealed";
}

-- `tally`, in the order in which its keys were added
pub tally : List Decision → List NameCount → List NameCount
tally [] cs = cs
tally (d ∷ ds) cs = tally ds (count_name (or_text d.scenario "unknown") cs)

abbrev pub fewer : NameCount → NameCount → Bool
fewer a b = ltb a.n b.n

abbrev pub ranked : List Decision → List NameCount
unfolding tally
ranked ds = sort fewer (tally ds [])

abbrev pub sum_counts : List NameCount → ℕ
sum_counts [] = 0
sum_counts (c ∷ cs) = c.n + sum_counts cs

-- The bar of the bans: up to three scenarios, and the others; none where there is nothing to show.
pub record Split : Type 0 where
  pub top : List NameCount
  pub other : ℕ

pub record BansCard : Type 0 where
  pub count : ℕ
  pub tone : Tone
  pub chip : String
  pub bar : Option Split
  pub next_release : Option ℕ

abbrev pub earlier : Option ℕ → Option ℕ → Option ℕ
earlier none o = o
earlier (some t) none = if t == 0 then none else some t
earlier (some t) (some u) = if t == 0 then some u else some (min t u)

-- The earliest end of a decision, one that is 0 or missing aside.
pub earliest : List Decision → Option ℕ → Option ℕ
earliest [] o = o
earliest (d ∷ ds) o = earliest ds (earlier d.until o)

unfoldable pub bans_card : ℕ → List Decision → BansCard
unfolding ranked earliest
bans_card count ds =
    let top = take 3 (ranked ds) in
    record {
      count = count;
      tone = if count == 0 then ok else info;
      chip = if count == 0 then "Clear" else "Monitoring";
      bar =
          if count == 0 || length top == 0
          then none
          else some (record { top = top; other = count - sum_counts top });
      next_release = earliest ds none;
    }

abbrev pub day : ℕ
day = 86400

abbrev pub month : ℕ
month = 30 * day

-- The card of the backups, with the ring's percentage and the age in days, both rounded as
-- `Math.round` does.
pub record BackupCard : Type 0 where
  pub days : Option ℕ
  pub today : Bool
  pub tone : Tone
  pub chip : String
  pub fresh : ℕ

abbrev pub backup_chip : Option ℕ → String
backup_chip none = "None"
backup_chip (some a) =
    if ltb month a then "Stale" else if ltb (14 * day) a then "Aging" else "Fresh"

abbrev pub backup_tone : Option ℕ → Tone
backup_tone none = warn
backup_tone (some a) = if ltb month a then warn else ok

abbrev pub freshness : Option ℕ → ℕ
freshness none = 0
freshness (some a) = (200 * (month - min a month) + month) / (2 * month)

abbrev pub is_today : Option ℕ → Bool
is_today none = false
is_today (some a) = ltb a day

abbrev pub days_of : Option ℕ → Option ℕ
days_of none = none
days_of (some a) = some ((2 * a + day) / (2 * day))

unfoldable pub backup_card : Backups → BackupCard
backup_card b = record {
  days = days_of b.age;
  today = is_today b.age;
  tone = backup_tone b.age;
  chip = backup_chip b.age;
  fresh = freshness b.age;
}

-- `renderOvPosture`: a card is written once something is known for it.
pub record Cards : Type 0 where
  pub updates : Option UpdateCard
  pub exposed : Option ExposedCard
  pub bans : Option BansCard
  pub backups : Option BackupCard

abbrev pub lift {ℓ κ} : {A : Type ℓ} {B : Type κ} → (A → B) → Option A → Option B
lift f none = none
lift f (some a) = some (f a)

unfoldable pub render_ov_posture : Posture → Cards
unfolding updates_card exposed_card bans_card backup_card
render_ov_posture s = record {
  updates = lift updates_card s.updates;
  exposed = lift (λ n. exposed_card n s.dmz_count) s.exposed;
  bans = lift (λ n. bans_card n s.decisions) s.bans;
  backups = lift backup_card s.backups;
}

unfoldable pub run : List (ℕ × Round) → Posture → Posture
unfolding refresh_ov_posture
run [] s = s
run ((now, r) ∷ rs) s = run rs (refresh_ov_posture now r s)
