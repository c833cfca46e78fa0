-- ===== src/Wifi.antt =====
-- plugins/wifi-openwrt-plugin/web/plugin.js: the requests of the plugin for OpenWrt access points, its
-- `busy` flag, its connection settings and what its head line says. Each async function is cut at its
-- awaits: what it waits for is among the calls, and the answer is an event. What it draws of the
-- access points is in Wifi/Signal.
pub mod Signal
pub mod Forms
pub mod Busy
pub mod Saving
pub mod Bands
pub mod Share
mod Tests
use tuxwall.Base.{
  ℕ, zero, suc, ◌+◌, String, Bool, true, false, not, ◌&&◌, ◌||◌, Option, none, some, List, [], ◌∷◌,
  any, length, ◌==◌, if◌then◌else◌, str_eq,
}
use tuxwall.Wifi.Signal.{Ap, Client}

-- What a call waits for; `load true` is the `loadConfig` of a `saveConfig`.
pub data Call : Type 0 where
  load : (in_save : Bool) → Call
  save test overview scan : Call

-- `hostList()` of the settings, and which secrets the server has.
pub record Config : Type 0 where
  pub hosts : List String
  pub ssh_key : Bool
  pub password : Bool

abbrev pub ready : Config → Bool
ready c = not (length c.hosts == 0)

abbrev pub key_ready : Config → Bool
key_ready c = c.ssh_key || c.password

pub data Hero : Type 0 where
  idle pending live degraded down : Hero

pub record Overview : Type 0 where
  pub ok : Bool
  pub aps : Option (List Ap)
  pub clients : List Client
  pub errors : List String
  pub error : String

abbrev pub aps_of : Option (List Ap) → List Ap
aps_of none = []
aps_of (some aps) = aps

-- `mode` of `renderOverview`
abbrev pub mode_of : Overview → Hero
mode_of d =
    if length d.errors == 0 then live else if length (aps_of d.aps) == 0 then down else degraded

pub data Message : Type 0 where
  quiet saving saved testing connected refreshing not_set_up : Message
  failed : String → Message

-- What the tab of the scans shows.
pub data Rf : Type 0 where
  not_scanned scanning scanned : Rf
  scan_failed : String → Rf

pub record Plugin : Type 0 where
  pub busy : Bool
  pub calls : List Call
  pub config : Config
  pub editing : Option Bool
  pub hero : Hero
  pub message : Message
  -- `state.data`
  pub collected : Option Overview
  pub rf : Rf

abbrev pub start : Plugin
start = record {
  busy = false;
  calls = [];
  config = record { hosts = []; ssh_key = false; password = false };
  editing = none;
  hero = idle;
  message = quiet;
  collected = none;
  rf = not_scanned;
}

abbrev pub await : Call → Plugin → Plugin
await c s = record s { calls = c ∷ s.calls }

abbrev pub same_call : Call → Call → Bool
same_call (load true) (load true) = true
same_call (load false) (load false) = true
same_call save save = true
same_call test test = true
same_call overview overview = true
same_call scan scan = true
same_call c d = false

pub remove_call : Call → List Call → List Call
remove_call c [] = []
remove_call c (d ∷ ds) = if same_call c d then ds else d ∷ remove_call c ds

-- The answer to a call, if it is under way.
unfoldable pub on_answer : Call → (Plugin → Plugin) → Plugin → Plugin
unfolding remove_call
on_answer c f s =
    if any (same_call c) s.calls then f (record s { calls = remove_call c s.calls }) else s

-- `refreshData`, `testConnection`, `saveConfig` and `runRfScan` up to their first `await`
abbrev pub refresh_data : Plugin → Plugin
refresh_data s =
    if s.busy then s else await overview (record s { busy = true; message = refreshing })

abbrev pub test_connection : Plugin → Plugin
test_connection s = if s.busy then s else await test (record s { busy = true; message = testing })

abbrev pub save_config : Plugin → Plugin
save_config s = if s.busy then s else await save (record s { busy = true; message = saving })

abbrev pub run_rf_scan : Plugin → Plugin
run_rf_scan s = if s.busy then s else await scan (record s { busy = true; rf = scanning })

-- the buttons "Refresh" and "Scan now", which want the settings
abbrev pub if_set_up : (Plugin → Plugin) → Plugin → Plugin
if_set_up f s =
    if ready s.config && key_ready s.config then f s else record s { message = not_set_up }

abbrev pub is_some_true : Option Bool → Bool
is_some_true none = false
is_some_true (some b) = b

-- `state.editing` after the settings have come
abbrev pub is_editing : Config → Option Bool → Bool
is_editing c e = not (ready c && key_ready c) || is_some_true e

-- `loadConfig(true)` after its `await`, inside its `try`
unfoldable pub config_loaded : Config → Plugin → Plugin
config_loaded c s =
    let t = record s { config = c; editing = some (is_editing c s.editing) } in
    if ready c && key_ready c
    then refresh_data t
    else record t { hero = if ready c then pending else idle }

-- An answer, or the text of the error.
pub data Reply (A : Type 0) : Type 0 where
  good : A → Reply A
  bad : String → Reply A

-- `loadConfig` is done: where `saveConfig` waited for it, that is done too.
abbrev pub loaded_to_end : Bool → Plugin → Plugin
loaded_to_end in_save s = record s { busy = if in_save then false else s.busy }

unfoldable pub load_answer : Bool → Reply Config → Plugin → Plugin
unfolding config_loaded
load_answer in_save (good c) s = loaded_to_end in_save (config_loaded c s)
load_answer in_save (bad e) s = loaded_to_end in_save (record s { message = failed e })

unfoldable pub save_answer : Reply Unit → Plugin → Plugin
save_answer (good u) s = await (load true) (record s { message = saved; editing = some false })
save_answer (bad e) s = record s { message = failed e; busy = false }

unfoldable pub test_answer : Reply Unit → Plugin → Plugin
test_answer (good u) s = record s { message = connected; busy = false }
test_answer (bad e) s = record s { message = failed e; busy = false }

-- `a || b` on texts
abbrev pub or_text : String → String → String
or_text a b = if str_eq a "" then b else a

abbrev pub is_none_aps : Option (List Ap) → Bool
is_none_aps none = true
is_none_aps (some aps) = false

unfoldable pub overview_answer : Reply Overview → Plugin → Plugin
overview_answer (good d) s =
    if not d.ok && is_none_aps d.aps
    then record s {
      collected = some d;
      message = failed (or_text d.error "Could not collect AP data");
      busy = false;
    }
    else record s { collected = some d; hero = mode_of d; message = quiet; busy = false }
overview_answer (bad e) s = record s { message = failed e; busy = false }

unfoldable pub scan_answer : Reply Unit → Plugin → Plugin
scan_answer (good u) s = record s { rf = scanned; busy = false }
scan_answer (bad e) s = record s { rf = scan_failed e; busy = false }

pub data Event : Type 0 where
  -- `mount`, and `refresh` on the overview's tab
  refreshed : Event
  save_pressed test_pressed refresh_pressed scan_pressed : Event
  -- four seconds after a channel was set
  scan_due : Event
  config_toggled : Event
  load_answered : (in_save : Bool) → Reply Config → Event
  save_answered test_answered scan_answered : Reply Unit → Event
  overview_answered : Reply Overview → Event

pub handle : Event → Plugin → Plugin
unfolding on_answer load_answer save_answer test_answer overview_answer scan_answer
handle refreshed s = await (load false) s
handle save_pressed s = save_config s
handle test_pressed s = test_connection s
handle refresh_pressed s = if_set_up refresh_data s
handle scan_pressed s = if_set_up run_rf_scan s
handle scan_due s = run_rf_scan s
handle config_toggled s = record s { editing = some (not (is_some_true s.editing)) }
handle (load_answered in_save r) s = on_answer (load in_save) (load_answer in_save r) s
handle (save_answered r) s = on_answer save (save_answer r) s
handle (test_answered r) s = on_answer test (test_answer r) s
handle (scan_answered r) s = on_answer scan (scan_answer r) s
handle (overview_answered r) s = on_answer overview (overview_answer r) s

pub run : List Event → Plugin → Plugin
unfolding handle
run [] s = s
run (e ∷ es) s = run es (handle e s)
