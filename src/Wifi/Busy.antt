-- ===== src/Wifi/Busy.antt =====
-- The flag `busy` against the requests that are under way.
use tuxwall.Base.{
  ℕ, ◌+◌, ◌≡◌, refl, Bool, true, false, not, ◌&&◌, some, List, [], ◌∷◌, any, keep, length, arith,
  if-elim, if◌then◌else◌,
}
use tuxwall.Wifi.{
  Call, load, save, test, overview, scan, Config, ready, key_ready, Plugin, start, same_call,
  remove_call, on_answer, refresh_data, test_connection, save_config, run_rf_scan, if_set_up,
  is_editing, config_loaded, Reply, good, bad, loaded_to_end, load_answer, save_answer, test_answer,
  overview_answer, scan_answer, Overview, is_none_aps, Event, refreshed, save_pressed, test_pressed,
  refresh_pressed, scan_pressed, scan_due, config_toggled, load_answered, save_answered,
  test_answered, scan_answered, overview_answered, handle, run,
}

-- The calls that a function which set `busy` waits for.
abbrev pub holds_busy : Call → Bool
holds_busy (load in_save) = in_save
holds_busy c = true

abbrev pub holders : List Call → ℕ
holders cs = length (keep holds_busy cs)

abbrev one_if : Bool → ℕ
one_if b = if b then 1 else 0

-- `busy` is set for exactly one call, or not set and no call would need it.
abbrev pub IsExclusive : Plugin → Type 0
IsExclusive s = holders s.calls ≡ one_if s.busy

holders-remove_call :
    (c : Call) (cs : List Call)
    → any (same_call c) cs ≡ true
    → holders (remove_call c cs) + one_if (holds_busy c) ≡ holders cs
unfolding remove_call
holders-remove_call c [] e = ground (arith, e)
holders-remove_call c (d ∷ ds) e = ground (arith, e, holders-remove_call c ds)

module _ (s : Plugin) (h : IsExclusive s) where
  refresh_data-IsExclusive : IsExclusive (refresh_data s)
  refresh_data-IsExclusive = if-elim IsExclusive s.busy s _ (λ e. h) (λ e. ground (arith, h, e))

  test-IsExclusive : IsExclusive (test_connection s)
  test-IsExclusive = if-elim IsExclusive s.busy s _ (λ e. h) (λ e. ground (arith, h, e))

  save-IsExclusive : IsExclusive (save_config s)
  save-IsExclusive = if-elim IsExclusive s.busy s _ (λ e. h) (λ e. ground (arith, h, e))

  scan-IsExclusive : IsExclusive (run_rf_scan s)
  scan-IsExclusive = if-elim IsExclusive s.busy s _ (λ e. h) (λ e. ground (arith, h, e))

  set_up-IsExclusive : (f : Plugin → Plugin) → IsExclusive (f s) → IsExclusive (if_set_up f s)
  set_up-IsExclusive f g =
      if-elim IsExclusive (ready s.config && key_ready s.config) (f s) _ (λ e. g) (λ e. h)

-- An answer to a call that `busy` is set for ends with `busy` not set, or goes on to another one.
on_answer-IsExclusive :
    (c : Call) (f : Plugin → Plugin) (s : Plugin)
    → holds_busy c ≡ true
    → ((t : Plugin) → holders t.calls ≡ 0 → t.busy ≡ true → IsExclusive (f t))
    → IsExclusive s
    → IsExclusive (on_answer c f s)
unfolding on_answer
on_answer-IsExclusive c f s b g h =
    if-elim IsExclusive (any (same_call c) s.calls) (f (record s { calls = remove_call c s.calls }))
      s
      (λ e.
        g (record s { calls = remove_call c s.calls })
          (ground (arith, b, h, holders-remove_call c s.calls e))
          (ground (arith, b, h, holders-remove_call c s.calls e)))
      (λ e. h)

loaded-IsExclusive :
    (r : Reply Config) (s : Plugin) → IsExclusive s → IsExclusive (load_answer false r s)
unfolding load_answer config_loaded
loaded-IsExclusive (bad e) s h = h
loaded-IsExclusive (good c) s h =
    let t = record s { config = c; editing = some (is_editing c s.editing) } in
    if-elim (λ u. IsExclusive (loaded_to_end false u)) (ready c && key_ready c) (refresh_data t) _
      (λ e. refresh_data-IsExclusive t h) (λ e. h)

saved-IsExclusive :
    (r : Reply Config) (s : Plugin)
    → holders s.calls ≡ 0
    → s.busy ≡ true
    → IsExclusive (load_answer true r s)
unfolding load_answer config_loaded
saved-IsExclusive (bad e) s n b = n
saved-IsExclusive (good c) s n b =
    let t = record s { config = c; editing = some (is_editing c s.editing) } in
    if-elim (λ u. IsExclusive (loaded_to_end true u)) (ready c && key_ready c) (refresh_data t) _
      (λ e.
        if-elim (λ u. IsExclusive (loaded_to_end true u)) s.busy t _ (λ f. n)
          (λ f. ground (arith, b, f)))
      (λ e. n)

save_answer-IsExclusive :
    (r : Reply Unit) (s : Plugin)
    → holders s.calls ≡ 0
    → s.busy ≡ true
    → IsExclusive (save_answer r s)
unfolding save_answer
save_answer-IsExclusive (good u) s n b = ground (arith, n, b)
save_answer-IsExclusive (bad e) s n b = n

test_answer-IsExclusive :
    (r : Reply Unit) (s : Plugin) → holders s.calls ≡ 0 → IsExclusive (test_answer r s)
unfolding test_answer
test_answer-IsExclusive (good u) s n = n
test_answer-IsExclusive (bad e) s n = n

scan_answer-IsExclusive :
    (r : Reply Unit) (s : Plugin) → holders s.calls ≡ 0 → IsExclusive (scan_answer r s)
unfolding scan_answer
scan_answer-IsExclusive (good u) s n = n
scan_answer-IsExclusive (bad e) s n = n

overview_answer-IsExclusive :
    (r : Reply Overview) (s : Plugin) → holders s.calls ≡ 0 → IsExclusive (overview_answer r s)
unfolding overview_answer
overview_answer-IsExclusive (good d) s n =
    if-elim IsExclusive (not d.ok && is_none_aps d.aps) _ _ (λ e. n) (λ e. n)
overview_answer-IsExclusive (bad e) s n = n

reload-IsExclusive :
    (r : Reply Config) (s : Plugin)
    → IsExclusive s
    → IsExclusive (on_answer (load false) (load_answer false r) s)
unfolding on_answer
reload-IsExclusive r s h =
    if-elim IsExclusive (any (same_call (load false)) s.calls)
      (load_answer false r (record s { calls = remove_call (load false) s.calls })) s
      (λ e.
        loaded-IsExclusive r (record s { calls = remove_call (load false) s.calls })
          (ground (arith, h, holders-remove_call (load false) s.calls e)))
      (λ e. h)

handle-IsExclusive : (e : Event) (s : Plugin) → IsExclusive s → IsExclusive (handle e s)
unfolding handle
handle-IsExclusive refreshed s h = h
handle-IsExclusive save_pressed s h = save-IsExclusive s h
handle-IsExclusive test_pressed s h = test-IsExclusive s h
handle-IsExclusive refresh_pressed s h =
    set_up-IsExclusive s h refresh_data (refresh_data-IsExclusive s h)
handle-IsExclusive scan_pressed s h = set_up-IsExclusive s h run_rf_scan (scan-IsExclusive s h)
handle-IsExclusive scan_due s h = scan-IsExclusive s h
handle-IsExclusive config_toggled s h = h
handle-IsExclusive (load_answered true r) s h =
    on_answer-IsExclusive (load true) (load_answer true r) s refl (saved-IsExclusive r) h
handle-IsExclusive (load_answered false r) s h = reload-IsExclusive r s h
handle-IsExclusive (save_answered r) s h =
    on_answer-IsExclusive save (save_answer r) s refl (save_answer-IsExclusive r) h
handle-IsExclusive (test_answered r) s h =
    on_answer-IsExclusive test (test_answer r) s refl (λ t n b. test_answer-IsExclusive r t n) h
handle-IsExclusive (scan_answered r) s h =
    on_answer-IsExclusive scan (scan_answer r) s refl (λ t n b. scan_answer-IsExclusive r t n) h
handle-IsExclusive (overview_answered r) s h =
    on_answer-IsExclusive overview (overview_answer r) s refl
      (λ t n b. overview_answer-IsExclusive r t n) h

run_from-IsExclusive : (es : List Event) (s : Plugin) → IsExclusive s → IsExclusive (run es s)
unfolding run
run_from-IsExclusive [] s h = h
run_from-IsExclusive (e ∷ es) s h = run_from-IsExclusive es (handle e s) (handle-IsExclusive e s h)

-- Whatever is pressed and answered in whatever order: while `busy` is set exactly one call that it is
-- set for is under way, to save, to load what was saved, to test, to collect or to scan, and while it
-- is not set none is.
pub run-IsExclusive : (es : List Event) → IsExclusive (run es start)
run-IsExclusive es = run_from-IsExclusive es start refl
