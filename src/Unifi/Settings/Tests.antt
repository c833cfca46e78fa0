-- ===== src/Unifi/Settings/Tests.antt =====
-- The settings come with the page, the controller answers, and a test of the connection fails.
use tuxwall.Base.{◌≡◌, refl, true, false, none, some, List, [], ◌∷◌}
use tuxwall.Unifi.Settings.{
  Config, Overview, online, start, mount, good, bad, ready, render_bento, refresh_data,
  overview_answer, config_loaded, go_on, load_answer, remove_call, on_answer, Event, load_came,
  overview_came, failed, handle, run,
}
use tuxwall.Unifi.Settings.Told.{Told, run-Told}
use tuxwall.Unifi.Settings.Online.{tested, run-tested}

abbrev config : Config
config = record {
  url = "https://10.0.0.2:8443";
  controller_type = "";
  auth_mode = "local";
  username = "reader";
  site = "";
  verify_tls = none;
  api_key = false;
  password = true;
}

abbrev found : Overview
found = record { aps = "Hall" ∷ "Attic" ∷ []; clients = true ∷ false ∷ false ∷ [] }

abbrev shown : List Event
shown = load_came mount (good config) ∷ overview_came (good found) ∷ []

shown_test :
    ((run shown start).bento.hero ≡ online 2 3 2)
    × ((run shown start).bento.numbers
        ≡ some (record { aps = 2; clients = 3; wireless = 2; wired = 1 }))
    × ((run shown start).collapsed ≡ true)
    × ((run shown start).form.site ≡ "default")
    × ((run shown start).calls ≡ [])
unfolding run handle on_answer remove_call load_answer config_loaded go_on refresh_data ready
    overview_answer render_bento
shown_test = (refl, refl, refl, refl, refl)

run-Told_example : Told (run shown start)
run-Told_example = run-Told shown

config_ready : ready (some config) ≡ true
unfolding ready
config_ready = refl

run-tested_example :
    ((run (tested config (bad "timed out")) (run shown start)).bento.hero ≡ online 0 0 0)
    × ((run (tested config (bad "timed out")) (run shown start)).message ≡ failed "timed out")
    × ((run (tested config (bad "timed out")) (run shown start)).data_known
        ≡ (run shown start).data_known)
    × ((run (tested config (bad "timed out")) (run shown start)).calls ≡ (run shown start).calls)
run-tested_example = run-tested (run shown start) config "timed out" config_ready
