-- ===== src/Wifi/Tests.antt =====
-- Two access points with three clients, and settings that are saved.
use tuxwall.Base.{◌≡◌, refl, true, false, none, some, List, [], ◌∷◌, length, map, keep}
use tuxwall.Base.Sort.{sort, insert}
use tuxwall.Wifi.{
  Config, start, Event, refreshed, save_pressed, refresh_pressed, scan_pressed, load_answered,
  overview_answered, save_answered, good, bad, overview, saved, live, handle, run, on_answer,
  config_loaded, load_answer, save_answer, overview_answer, refreshing,
}
use tuxwall.Wifi.Signal.{Ap, Client, negsuc, poor, signal_histogram, weak_count, ap_chart_rows}
use tuxwall.Wifi.Busy.{IsExclusive, run-IsExclusive}
use tuxwall.Wifi.Saving.{resting, save_run, load_run, run-silent_save}
use tuxwall.Wifi.Bands.{tones, count_tone, has_signal, signal_histogram-count_tone}
use tuxwall.Wifi.Forms.{NetForm, save_net_form, password_short, IsDue, save_net_form-IsDue}
use tuxwall.Wifi.Share.{IsChart, ap_chart_rows-IsChart}

abbrev settings : Config
settings = record { hosts = "10.0.0.2" ∷ "10.0.0.3" ∷ []; ssh_key = true; password = false }

abbrev two_aps : List Ap
two_aps =
    record { name = some "attic"; ip = some "10.0.0.2" }
    ∷ record { name = none; ip = some "10.0.0.3" }
    ∷ []

abbrev three_clients : List Client
three_clients =
    record { ap = none; signal = some (negsuc 49) }
    ∷ record { ap = some "attic"; signal = some (negsuc 79) }
    ∷ record { ap = some "garden"; signal = none }
    ∷ []

abbrev evening : List Event
evening =
    refreshed
    ∷ load_answered false (good settings)
    ∷ scan_pressed
    ∷ overview_answered (
        good (record {
          ok = true;
          aps = some two_aps;
          clients = three_clients;
          errors = [];
          error = "";
        }))
    ∷ save_pressed
    ∷ refresh_pressed
    ∷ save_answered (bad "refused")
    ∷ refresh_pressed
    ∷ []

evening_test :
    ((run evening start).busy ≡ true)
    × ((run evening start).calls ≡ overview ∷ [])
    × ((run evening start).hero ≡ live)
    × ((run evening start).message ≡ refreshing)
unfolding run handle on_answer load_answer config_loaded overview_answer save_answer
evening_test = (refl, refl, refl, refl)

chart_test : map (λ r. r.n) (ap_chart_rows two_aps three_clients) ≡ 1 ∷ 1 ∷ 1 ∷ []
unfolding ap_chart_rows sort insert
chart_test = refl

run-IsExclusive_example : IsExclusive (run evening start)
run-IsExclusive_example = run-IsExclusive evening

run-silent_save_example :
    ((run (load_run settings) (resting start)).calls ≡ overview ∷ [])
    × ((run (save_run settings) (resting start)).calls ≡ [])
    × ((run (save_run settings) (resting start)).busy ≡ false)
    × ((run (save_run settings) (resting start)).message ≡ saved)
    × ((run (save_run settings) (resting start)).hero ≡ start.hero)
run-silent_save_example = run-silent_save settings start refl

signal_histogram-count_tone_example :
    ((signal_histogram three_clients).counts ≡ map (count_tone three_clients) tones)
    × ((signal_histogram three_clients).total
        ≡ length (keep (λ c. has_signal c.signal) three_clients))
    × (count_tone three_clients poor ≡ weak_count three_clients)
signal_histogram-count_tone_example = signal_histogram-count_tone three_clients

ap_chart_rows-IsChart_example : IsChart two_aps three_clients (ap_chart_rows two_aps three_clients)
ap_chart_rows-IsChart_example = ap_chart_rows-IsChart two_aps three_clients refl

abbrev guest_form : NetForm
guest_form = record {
  ssid = "guest";
  band = "5g";
  encryption = "psk2";
  network = "lan";
  key = "short";
}

short_test : save_net_form none guest_form true ≡ password_short
unfolding save_net_form
short_test = refl

save_net_form-IsDue_example : IsDue none guest_form true (save_net_form none guest_form true)
save_net_form-IsDue_example = save_net_form-IsDue none guest_form true
