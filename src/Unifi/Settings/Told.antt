-- ===== src/Unifi/Settings/Told.antt =====
-- What the head cards of the UniFi plugin say.
use tuxwall.Base.{
  ℕ, ◌+◌, ◌-◌, ◌≡◌, refl, sym, ◌⊎◌, inl, inr, String, Bool, true, false, not, ◌&&◌, Option, none,
  some, List, [], ◌∷◌, any, keep, length, arith, if-elim, if◌then◌else◌,
}
use mathlib.Core.Path.{subst}
use tuxwall.Unifi.Settings.{
  Config, Overview, Numbers, Hero, not_connected, offline, online, Plugin, start, Loader, mount,
  refresh, persist, Call, load, save, test, overview, Reply, good, bad, is_empty, fill_form, ready,
  connected, count_wireless, render_bento, set_collapsed, refresh_data, overview_answer,
  auto_refresh, is_mount, config_loaded, go_on, load_answer, save_answer, test_answer, same_call,
  remove_call, on_answer, Event, typed, save_pressed, toggled, refresh_pressed, refreshed,
  inventory_opened, load_came, save_came, test_came, overview_came, open_inventory, handle, run,
  render_no_data, render_data,
}

abbrev pub aps_of : Option Overview → List String
aps_of none = []
aps_of (some d) = d.aps

abbrev pub clients_of : Option Overview → List Bool
clients_of none = []
clients_of (some d) = d.clients

abbrev pub wired_ones : List Bool → ℕ
wired_ones clients = length (keep (λ w. w) clients)

-- The numbers of so many access points and of these clients.
abbrev pub IsCount : Numbers → List String → List Bool → Type 0
IsCount n aps clients =
    (n.aps ≡ length aps)
    × (n.clients ≡ length clients)
    × (n.wireless ≡ count_wireless clients)
    × (n.wired ≡ wired_ones clients)

abbrev pub IsTold : Bool → Option Overview → Hero → Option Numbers → Type 0
IsTold c d (online a n w) (some k) =
    (c ≡ true)
    × (a ≡ k.aps)
    × (n ≡ k.clients)
    × (w ≡ k.wireless)
    × (IsCount k (aps_of d) (clients_of d) ⊎ IsCount k [] [])
IsTold c d (offline e) none = is_empty e ≡ false
IsTold c d not_connected none = Unit
IsTold c d h o = ⊥

abbrev pub Told : Plugin → Type 0
Told s = IsTold (connected s.cfg) s.data_known s.bento.hero s.bento.numbers

wired_wireless :
    (clients : List Bool) → length clients - count_wireless clients ≡ wired_ones clients
wired_wireless clients = omega (arith, wired_and_wireless clients)
  where
    wired_and_wireless :
        (clients : List Bool) → wired_ones clients + count_wireless clients ≡ length clients
    wired_and_wireless [] = refl
    wired_and_wireless (true ∷ cs) = omega (arith, wired_and_wireless cs)
    wired_and_wireless (false ∷ cs) = omega (arith, wired_and_wireless cs)

module _ (d : Option Overview) (k : Numbers)
    (h : IsCount k (aps_of d) (clients_of d) ⊎ IsCount k [] []) where
  shown-IsTold :
      (b c : Bool) (e : String)
      → is_empty e ≡ b
      → IsTold c d
          (if not b
            then offline e
            else if c
            then online k.aps k.clients k.wireless
            else not_connected)
          (if b && c then some k else none)
  shown-IsTold false c e t = t
  shown-IsTold true true e t = (refl, refl, refl, refl, h)
  shown-IsTold true false e t = tt

bento-IsTold :
    (c : Option Config) (d : Option Overview) (aps : List String) (clients : List Bool) (e : String)
    → ((k : Numbers)
        → IsCount k aps clients
        → IsCount k (aps_of d) (clients_of d) ⊎ IsCount k [] [])
    → IsTold
        (connected c)
        d
        (render_bento c aps clients e).hero
        (render_bento c aps clients e).numbers
unfolding render_bento
bento-IsTold c d aps clients e h =
    shown-IsTold d _ (h _ (refl, refl, refl, wired_wireless clients)) (is_empty e) (connected c) e
      refl

render_no_data-Told : (e : String) (s : Plugin) → Told (render_no_data e s)
unfolding render_no_data render_bento
render_no_data-Told e s = bento-IsTold s.cfg none [] [] e (λ k g. inr g)

render_data-Told : (d : Overview) (s : Plugin) → Told (render_data d s)
unfolding render_data render_bento
render_data-Told d s = bento-IsTold s.cfg (some d) d.aps d.clients "" (λ k g. inl g)

refresh_data-Told : (s : Plugin) → Told s → Told (refresh_data s)
unfolding refresh_data
refresh_data-Told s h =
    if-elim Told s.busy s _ (λ _. h)
      (λ _.
        if-elim Told (connected s.cfg) _ (render_no_data "" s) (λ _. h)
          (λ _. render_no_data-Told "" s))

overview_answer-Told : (r : Reply Overview) (s : Plugin) → Told (overview_answer r s)
unfolding overview_answer
overview_answer-Told (good d) s = render_data-Told d s
overview_answer-Told (bad e) s = render_no_data-Told e s

now_connected :
    (b : Bool) (d : Option Overview) (h : Hero) (o : Option Numbers)
    → IsTold b d h o
    → IsTold true d h o
now_connected b d (online a n w) (some k) (p, q, r, t, g) = (refl, q, r, t, g)
now_connected b d (online a n w) none g = elim g [ ]
now_connected b d (offline e) (some k) g = elim g [ ]
now_connected b d (offline e) none g = g
now_connected b d not_connected (some k) g = elim g [ ]
now_connected b d not_connected none g = g

and_right : (a : Bool) {b : Bool} → a && b ≡ true → b ≡ true
and_right true e = e
and_right false e = ground (arith, e)

config_loaded-Told : (l : Loader) (c : Config) (s : Plugin) → Told s → Told (config_loaded l c s)
unfolding config_loaded
config_loaded-Told l c s h =
    let t : Plugin = record s { cfg = some c; form = fill_form c } in
    let u : Plugin =
      if auto_refresh l && connected (some c)
      then refresh_data t
      else record t { bento = render_bento (some c) [] [] "" } in
    let g : Told u =
      if-elim Told (auto_refresh l && connected (some c)) (refresh_data t) _
        (λ e. refresh_data-Told t (connected_told l c s h e))
        (λ _. bento-IsTold (some c) s.data_known [] [] "" (λ k m. inr m)) in
    if-elim Told (is_mount l && ready (some c)) (set_collapsed true u) u (λ _. g) (λ _. g)
  where
    connected_told :
        (l : Loader) (c : Config) (s : Plugin)
        → Told s
        → auto_refresh l && connected (some c) ≡ true
        → IsTold (connected (some c)) s.data_known s.bento.hero s.bento.numbers
    connected_told l c s h e =
        subst (λ b. IsTold b s.data_known s.bento.hero s.bento.numbers)
          (sym (and_right (auto_refresh l) e))
          (now_connected (connected s.cfg) s.data_known s.bento.hero s.bento.numbers h)

go_on-Told : (l : Loader) (s : Plugin) → Told s → Told (go_on l s)
unfolding go_on
go_on-Told mount s h = h
go_on-Told refresh s h = h
go_on-Told (persist false) s h = h
go_on-Told (persist true) s h = h

load_answer-Told : (l : Loader) (r : Reply Config) (s : Plugin) → Told s → Told (load_answer l r s)
unfolding load_answer
load_answer-Told l (good c) s h = go_on-Told l (config_loaded l c s) (config_loaded-Told l c s h)
load_answer-Told l (bad e) s h = go_on-Told l _ h

save_answer-Told : (b : Bool) (r : Reply Unit) (s : Plugin) → Told s → Told (save_answer b r s)
unfolding save_answer
save_answer-Told b (good u) s h = h
save_answer-Told b (bad e) s h = h

test_answer-Told : (r : Reply Unit) (s : Plugin) → Told s → Told (test_answer r s)
unfolding test_answer
test_answer-Told (good u) s h = h
test_answer-Told (bad e) s h = h

on_answer-Told :
    (c : Call) (f : Plugin → Plugin) (s : Plugin)
    → ((t : Plugin) → Told t → Told (f t))
    → Told s
    → Told (on_answer c f s)
unfolding on_answer
on_answer-Told c f s g h =
    if-elim Told (any (same_call c) s.calls) (f (record s { calls = remove_call c s.calls })) s
      (λ _. g (record s { calls = remove_call c s.calls }) h) (λ _. h)

open_inventory-Told : (o : Option Overview) (s : Plugin) → Told s → Told (open_inventory o s)
open_inventory-Told none s h = refresh_data-Told s h
open_inventory-Told (some d) s h = h

handle-Told : (e : Event) (s : Plugin) → Told s → Told (handle e s)
unfolding handle
handle-Told (typed f) s h = h
handle-Told (save_pressed b) s h = h
handle-Told toggled s h = h
handle-Told refresh_pressed s h = refresh_data-Told s h
handle-Told refreshed s h = h
handle-Told inventory_opened s h = open_inventory-Told s.data_known s h
handle-Told (load_came l r) s h =
    on_answer-Told (load l) (load_answer l r) s (load_answer-Told l r) h
handle-Told (save_came b r) s h =
    on_answer-Told (save b) (save_answer b r) s (save_answer-Told b r) h
handle-Told (test_came r) s h = on_answer-Told test (test_answer r) s (test_answer-Told r) h
handle-Told (overview_came r) s h =
    on_answer-Told overview (overview_answer r) s (λ t _. overview_answer-Told r t) h

run_from-Told : (es : List Event) (s : Plugin) → Told s → Told (run es s)
unfolding run
run_from-Told [] s h = h
run_from-Told (e ∷ es) s h = run_from-Told es (handle e s) (handle-Told e s h)

-- Whatever is typed, pressed, saved and answered in whatever order: the head says "Online" only where
-- an address and the credentials are set, and the numbers on the cards are shown exactly then; they
-- are those of the access points and clients that are known, the wireless and the wired counted
-- each, or all 0; and where it says "Offline" there is a reason.
pub run-Told : (es : List Event) → Told (run es start)
run-Told es = run_from-Told es start tt
