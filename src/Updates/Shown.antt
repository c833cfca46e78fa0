-- ===== src/Updates/Shown.antt =====
-- What the card of the updates shows at any time.
use tuxwall.Base.{
  ℕ, ◌≤◌, ◌≡◌, refl, ◌⊎◌, inl, inr, String, Bool, true, false, not, Option, none, some, List, [],
  ◌∷◌, ◌==◌, arith, if-elim, if◌then◌else◌,
}
use tuxwall.Updates.{
  Report, Card, Note, idle_note, Page, start, Reply, good, bad, Event, opened, timer_due, clicked,
  poll_came, refresh_came, click_came, no_note, render_updates, percent_of, poll_answered,
  refresh_answered, click_answered, handle, run,
}

abbrev pub IsShown : Card → Type 0
IsShown c =
    (c.buttons_disabled ≡ not c.progress_hidden)
    × ((c.progress_hidden ≡ true) ⊎ (c.note ≡ no_note))
    × (c.bar ≤ 100)

percent_le : (o : Option ℕ) → percent_of o ≤ 100
percent_le none = omega arith
percent_le (some p) = omega arith

double_not : (b : Bool) → b ≡ not (not b)
double_not true = refl
double_not false = refl

note_or : (r : Bool) (n : Note) → (not r ≡ true) ⊎ ((if r then no_note else n) ≡ no_note)
note_or true n = inr refl
note_or false n = inl refl

bar_le : (r : Bool) (p b : ℕ) → p ≤ 100 → b ≤ 100 → (if r then p else b) ≤ 100
bar_le true p b hp hb = hp
bar_le false p b hp hb = hb

render_updates-IsShown : (d : Report) (c : Card) → IsShown c → IsShown (render_updates d c)
unfolding render_updates
render_updates-IsShown d c (_, _, h) = (
  double_not d.running,
  note_or d.running (idle_note d.upgradable d.last_check),
  bar_le d.running (percent_of d.percent) c.bar (percent_le d.percent) h,
)

poll-IsShown : (r : Reply) (s : Page) → IsShown s.card → IsShown (poll_answered r s).card
unfolding poll_answered
poll-IsShown (good d) s h = render_updates-IsShown d s.card h
poll-IsShown (bad e) s h = h

refresh-IsShown : (r : Reply) (s : Page) → IsShown s.card → IsShown (refresh_answered r s).card
unfolding refresh_answered
refresh-IsShown (good d) s h = render_updates-IsShown d s.card h
refresh-IsShown (bad e) s h = h

click-IsShown : (e : Option String) (s : Page) → IsShown s.card → IsShown (click_answered e s).card
unfolding click_answered
click-IsShown none s h = h
click-IsShown (some e) s h = h

handle-IsShown : (e : Event) (s : Page) → IsShown s.card → IsShown (handle e s).card
unfolding handle
handle-IsShown opened s h = h
handle-IsShown timer_due s h = if-elim (λ t. IsShown t.card) s.timer _ s (λ _. h) (λ _. h)
handle-IsShown clicked s h =
    if-elim (λ t. IsShown t.card) s.card.buttons_disabled s _ (λ _. h) (λ _. h)
handle-IsShown (poll_came r) s h =
    if-elim (λ t. IsShown t.card) (s.polls == 0) s _ (λ _. h) (λ _. poll-IsShown r _ h)
handle-IsShown (refresh_came r) s h =
    if-elim (λ t. IsShown t.card) (s.refreshes == 0) s _ (λ _. h) (λ _. refresh-IsShown r _ h)
handle-IsShown (click_came e) s h =
    if-elim (λ t. IsShown t.card) (s.clicks == 0) s _ (λ _. h) (λ _. click-IsShown e _ h)

run_from-IsShown : (es : List Event) (s : Page) → IsShown s.card → IsShown (run es s).card
unfolding run
run_from-IsShown [] s h = h
run_from-IsShown (e ∷ es) s h = run_from-IsShown es (handle e s) (handle-IsShown e s h)

-- Whatever is clicked, polled and answered in whatever order: the two buttons can be clicked exactly
-- where the progress is hidden, no note stands beside a progress that is shown, and the bar is
-- never wider than its place.
pub run-IsShown : (es : List Event) → IsShown (run es start).card
run-IsShown es = run_from-IsShown es start (refl, inl refl, omega arith)
