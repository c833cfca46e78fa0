-- ===== src/Updates/Stuck.antt =====
-- A poll that fails while an upgrade runs.
use tuxwall.Base.{
  ◌≡◌, refl, String, Bool, true, false, Option, some, List, [], ◌∷◌, ◌==◌, arith, if-elim, ◌∙◌, ap,
}
use tuxwall.Updates.{
  Card, Page, bad, Event, opened, timer_due, clicked, poll_came, refresh_came, click_came,
  poll_answered, handle, run,
}

abbrev pub never_opened : List Event → Bool
never_opened [] = true
never_opened (opened ∷ es) = false
never_opened (timer_due ∷ es) = never_opened es
never_opened (clicked ∷ es) = never_opened es
never_opened (poll_came r ∷ es) = never_opened es
never_opened (refresh_came r ∷ es) = never_opened es
never_opened (click_came e ∷ es) = never_opened es

-- Nothing that was asked for is still to be answered.
abbrev pub IsQuiet : Page → Type 0
IsQuiet s = (s.polls ≡ 0) × (s.refreshes ≡ 0) × (s.clicks ≡ 0)

handle_quiet :
    (e : Event) (es : List Event) (s : Page)
    → IsQuiet s
    → s.timer ≡ false
    → s.card.buttons_disabled ≡ true
    → never_opened (e ∷ es) ≡ true
    → (handle e s ≡ s) × (never_opened es ≡ true)
unfolding handle
handle_quiet opened es s q t b h = ground (arith, h)
handle_quiet timer_due es s q t b h =
    (if-elim (λ x. x ≡ s) s.timer _ s (λ y. ground (arith, y, t)) (λ _. refl), h)
handle_quiet clicked es s q t b h =
    (if-elim (λ x. x ≡ s) s.card.buttons_disabled s _ (λ _. refl) (λ y. ground (arith, y, b)), h)
handle_quiet (poll_came r) es s (p, f, c) t b h =
    (if-elim (λ x. x ≡ s) (s.polls == 0) s _ (λ _. refl) (λ y. ground (arith, y, p)), h)
handle_quiet (refresh_came r) es s (p, f, c) t b h =
    (if-elim (λ x. x ≡ s) (s.refreshes == 0) s _ (λ _. refl) (λ y. ground (arith, y, f)), h)
handle_quiet (click_came e) es s (p, f, c) t b h =
    (if-elim (λ x. x ≡ s) (s.clicks == 0) s _ (λ _. refl) (λ y. ground (arith, y, c)), h)

run_quiet :
    (es : List Event) (s : Page)
    → IsQuiet s
    → s.timer ≡ false
    → s.card.buttons_disabled ≡ true
    → never_opened es ≡ true
    → run es s ≡ s
unfolding run
run_quiet [] s q t b h = refl
run_quiet (e ∷ es) s q t b h =
    let (stays, rest) = handle_quiet e es s q t b h in ap (run es) stays ∙ run_quiet es s q t b rest

-- The page that polls while an upgrade is shown running.
abbrev pub polling : Card → Option String → Page
polling c banner = record {
  card = record c { progress_hidden = false; buttons_disabled = true };
  timer = true;
  polls = 0;
  refreshes = 0;
  clicks = 0;
  banner = banner;
}

-- While an upgrade is shown running and nothing else is under way, a poll fails: until the card is
-- opened again, whatever else happens, the card goes on to show the upgrade as it was, its buttons
-- disabled, nothing is polled, and nothing is asked for.
pub run-stuck :
    (c : Card) (banner : Option String) (e : String) (es : List Event)
    → never_opened es ≡ true
    → run (timer_due ∷ poll_came (bad e) ∷ es) (polling c banner)
      ≡ record (polling c banner) { timer = false; banner = some e }
unfolding run handle poll_answered
run-stuck c banner e es h =
    run_quiet es (record (polling c banner) { timer = false; banner = some e }) (refl, refl, refl)
      refl refl h
