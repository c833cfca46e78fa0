-- ===== src/Wifi/Saving.antt =====
-- What a save of the settings leads to.
use tuxwall.Base.{◌≡◌, refl, ap, ◌∙◌, true, false, ◌&&◌, some, List, [], ◌∷◌, any, arith, if-elim}
use tuxwall.Wifi.{
  Call, load, save, overview, Config, ready, key_ready, Plugin, same_call, remove_call, on_answer,
  refresh_data, is_editing, config_loaded, good, loaded_to_end, load_answer, save_answer, Event,
  refreshed, save_pressed, load_answered, save_answered, handle, run, saving, saved,
}

on_answer-first :
    (c : Call) (f : Plugin → Plugin) (s : Plugin) (cs : List Call)
    → same_call c c ≡ true
    → on_answer c f (record s { calls = c ∷ cs }) ≡ f (record s { calls = cs })
unfolding on_answer remove_call
on_answer-first c f s cs e =
    if-elim (λ t. t ≡ f (record s { calls = cs })) (any (same_call c) (c ∷ cs))
      (f (record s { calls = remove_call c (c ∷ cs) })) _
      (λ a. ap (λ l. f (record s { calls = l })) (ground (arith, e))) (λ a. ground (arith, e, a))

-- Settings are saved, and loaded again.
abbrev pub save_run : Config → List Event
save_run c = save_pressed ∷ save_answered (good (tt {0})) ∷ load_answered true (good c) ∷ []

-- Settings are loaded for another reason.
abbrev pub load_run : Config → List Event
load_run c = refreshed ∷ load_answered false (good c) ∷ []

abbrev pub resting : Plugin → Plugin
resting s = record s { busy = false }

-- The state in which the answer to the save, or to the load, is taken on.
abbrev posted : Plugin → Plugin
posted s = record s { busy = true; message = saving }

run-save_run :
    (c : Config) (s : Plugin)
    → run (save_run c) (resting s)
      ≡ load_answer true (good c) (record (posted s) { message = saved; editing = some false })
unfolding run handle save_answer
run-save_run c s =
    ap (handle (load_answered true (good c)))
      (on_answer-first save (save_answer (good (tt {0}))) (posted s) s.calls refl)
    ∙ on_answer-first (load true) (load_answer true (good c))
        (record (posted s) { message = saved; editing = some false }) s.calls refl

run-load_run :
    (c : Config) (s : Plugin)
    → run (load_run c) (resting s) ≡ load_answer false (good c) (resting s)
unfolding run handle
run-load_run c s =
    on_answer-first (load false) (load_answer false (good c)) (resting s) s.calls refl

-- Settings that name an access point and have a secret. When they are loaded while `busy` is not set,
-- the access points are asked for; when they are saved and then loaded, nothing is asked for, since
-- `busy` is still set for the save: the message says that they are saved, and the head line what it
-- said before.
pub run-silent_save :
    (c : Config) (s : Plugin)
    → (ready c && key_ready c) ≡ true
    → ((run (load_run c) (resting s)).calls ≡ overview ∷ s.calls)
      × ((run (save_run c) (resting s)).calls ≡ s.calls)
      × ((run (save_run c) (resting s)).busy ≡ false)
      × ((run (save_run c) (resting s)).message ≡ saved)
      × ((run (save_run c) (resting s)).hero ≡ s.hero)
unfolding load_answer config_loaded
run-silent_save c s r =
    let t = record (posted s) {
      message = saved;
      editing = some (is_editing c (some false));
      config = c;
    } in
    let u = record (resting s) { config = c; editing = some (is_editing c s.editing) } in
    let e = run-save_run c s in
    let f : load_answer true (good c) (record (posted s) { message = saved; editing = some false })
        ≡ loaded_to_end true t =
      if-elim (λ v. loaded_to_end true v ≡ loaded_to_end true t) (ready c && key_ready c) t _
        (λ a. refl) (λ a. ground (arith, a, r)) in
    let g : load_answer false (good c) (resting s) ≡ loaded_to_end false (refresh_data u) =
      if-elim (λ v. loaded_to_end false v ≡ loaded_to_end false (refresh_data u))
        (ready c && key_ready c) (refresh_data u) _ (λ a. refl) (λ a. ground (arith, a, r)) in
    (
      ap (λ v. v.calls) (run-load_run c s ∙ g),
      ap (λ v. v.calls) (e ∙ f),
      ap (λ v. v.busy) (e ∙ f),
      ap (λ v. v.message) (e ∙ f),
      ap (λ v. v.hero) (e ∙ f),
    )
