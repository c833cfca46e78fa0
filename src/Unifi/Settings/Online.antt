-- ===== src/Unifi/Settings/Online.antt =====
-- A test of the connection that fails.
use tuxwall.Base.{◌≡◌, refl, String, true, some, List, [], ◌∷◌, arith}
use tuxwall.Unifi.Settings.{
  Config, Plugin, online, failed, connected, render_bento, Reply, good, bad, persist, config_loaded,
  go_on, load_answer, save_answer, test_answer, remove_call, on_answer, Event, save_pressed,
  load_came, save_came, test_came, handle, run,
}

-- What comes of "Test", up to the answer to the test.
abbrev pub tested : Config → Reply Unit → List Event
tested c r =
    save_pressed true
    ∷ save_came true (good tt)
    ∷ load_came (persist true) (good c)
    ∷ test_came r
    ∷ []

-- From any page, "Test" with settings that are complete: also where the test fails the head says
-- "Online", with no access points and no clients, whatever access points are known and listed
-- below; the failure stands only in the message, and the calls under way are those from before.
pub run-tested :
    (s : Plugin) (c : Config) (e : String)
    → connected (some c) ≡ true
    → ((run (tested c (bad e)) s).bento.hero ≡ online 0 0 0)
      × ((run (tested c (bad e)) s).message ≡ failed e)
      × ((run (tested c (bad e)) s).data_known ≡ s.data_known)
      × ((run (tested c (bad e)) s).calls ≡ s.calls)
unfolding run handle on_answer remove_call save_answer load_answer config_loaded go_on test_answer
    render_bento
run-tested s c e h = (ground (arith, h), refl, refl, refl)
