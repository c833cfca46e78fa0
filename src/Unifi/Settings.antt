-- ===== src/Unifi/Settings.antt =====
-- plugins/wifi-unifi-plugin/web/plugin.js: the settings of the UniFi plugin, its requests and its head
-- cards, `loadConfig`, `persistConfig`, `saveConfig`, `testConnection`, `refreshData`, `renderData` and
-- `renderBento`. Each async function is cut at its awaits: what it waits for is among the calls, and
-- the answer is an event. Texts that are typed are given trimmed, a text that is missing is empty; the
-- hint that `friendlyError` adds to a message is left out, and so are the traffic and connectivity
-- cards, of which only is counted how often they are asked for.
pub mod Told
pub mod Online
mod Tests
use tuxwall.Base.{
  ℕ, zero, suc, ◌+◌, ◌-◌, String, Bool, true, false, not, ◌&&◌, ◌||◌, Option, none, some, List, [],
  ◌∷◌, any, keep, length, str_eq, if◌then◌else◌,
}

-- What the server has of the settings, and which secrets it has.
pub record Config : Type 0 where
  pub url : String
  pub controller_type : String
  pub auth_mode : String
  pub username : String
  pub site : String
  pub verify_tls : Option Bool
  pub api_key : Bool
  pub password : Bool

-- The form, which is also what `collectConfig` posts.
pub record Form : Type 0 where
  pub url : String
  pub controller_type : String
  pub auth_mode : String
  pub username : String
  pub password : String
  pub api_key : String
  pub site : String
  pub verify_tls : Bool

abbrev pub is_empty : String → Bool
is_empty t = str_eq t ""

abbrev pub or_text : String → String → String
or_text a b = if is_empty a then b else a

abbrev pub or_true : Option Bool → Bool
or_true none = true
or_true (some b) = b

abbrev pub fill_form : Config → Form
fill_form c = record {
  url = c.url;
  controller_type = or_text c.controller_type "classic";
  auth_mode = or_text c.auth_mode "local";
  username = c.username;
  password = "";
  api_key = "";
  site = or_text c.site "default";
  verify_tls = or_true c.verify_tls;
}

abbrev pub collect_config : Form → Form
collect_config f = record f { site = or_text f.site "default" }

abbrev pub has_url : Option Config → Bool
has_url none = false
has_url (some c) = not (is_empty c.url)

unfoldable pub ready : Option Config → Bool
ready none = false
ready (some c) =
    if str_eq c.auth_mode "api_key" then c.api_key else not (is_empty c.username) && c.password

abbrev pub connected : Option Config → Bool
connected c = has_url c && ready c

-- What the controller says: the names of its access points, and which clients are wired.
pub record Overview : Type 0 where
  pub aps : List String
  pub clients : List Bool

pub record Numbers : Type 0 where
  pub aps : ℕ
  pub clients : ℕ
  pub wireless : ℕ
  pub wired : ℕ

pub data Hero : Type 0 where
  not_connected : Hero
  offline : String → Hero
  online : (aps clients wireless : ℕ) → Hero

-- The head cards; the controller's card has its settings, if there is an address.
pub record Bento : Type 0 where
  pub numbers : Option Numbers
  pub hero : Hero
  pub controller : Option Config

abbrev pub count_wireless : List Bool → ℕ
count_wireless clients = length (keep not clients)

abbrev pub controller_of : Option Config → Option Config
controller_of none = none
controller_of (some c) = if is_empty c.url then none else some c

unfoldable pub render_bento : Option Config → List String → List Bool → String → Bento
render_bento cfg aps clients error =
    let wireless = count_wireless clients in
    record {
      numbers =
          if is_empty error && connected cfg
          then some (record {
            aps = length aps;
            clients = length clients;
            wireless = wireless;
            wired = length clients - wireless;
          })
          else none;
      hero =
          if not (is_empty error)
          then offline error
          else if connected cfg
          then online (length aps) (length clients) wireless
          else not_connected;
      controller = controller_of cfg;
    }

pub data Message : Type 0 where
  quiet saving saved testing connection_ok updated : Message
  failed : String → Message

-- Who waits for the settings: `mount`, `refresh`, or a save, whose caller goes on afterwards.
pub data Loader : Type 0 where
  mount refresh : Loader
  persist : (to_test : Bool) → Loader

pub data Call : Type 0 where
  load : Loader → Call
  save : (to_test : Bool) → Call
  test overview : Call

pub record Plugin : Type 0 where
  pub cfg : Option Config
  pub form : Form
  pub calls : List Call
  pub posted : List Form
  pub busy : Bool
  pub data_known : Option Overview
  pub bento : Bento
  pub collapsed : Bool
  -- the settings that the folded panel names
  pub folded : Option Config
  pub message : Message
  pub cards_asked : ℕ

abbrev pub empty_form : Form
empty_form = record {
  url = "";
  controller_type = "classic";
  auth_mode = "local";
  username = "";
  password = "";
  api_key = "";
  site = "";
  verify_tls = true;
}

-- A call, its answer awaited.
abbrev pub await : Call → Plugin → Plugin
await c s = record s { calls = c ∷ s.calls }

-- `mount`
abbrev pub start : Plugin
start = record {
  cfg = none;
  form = empty_form;
  calls = load mount ∷ [];
  posted = [];
  busy = false;
  data_known = none;
  bento = record { numbers = none; hero = not_connected; controller = none };
  collapsed = false;
  folded = none;
  message = quiet;
  cards_asked = 0;
}

abbrev pub set_collapsed : Bool → Plugin → Plugin
set_collapsed b s = record s { collapsed = b; folded = if b then controller_of s.cfg else none }

-- `renderData(null, error)` and `renderData(d)`
abbrev pub render_no_data : String → Plugin → Plugin
unfolding render_bento
render_no_data error s = record s { data_known = none; bento = render_bento s.cfg [] [] error }

abbrev pub render_data : Overview → Plugin → Plugin
unfolding render_bento
render_data d s = record s { data_known = some d; bento = render_bento s.cfg d.aps d.clients "" }

-- `refreshData` up to its `await`
unfoldable pub refresh_data : Plugin → Plugin
refresh_data s =
    if s.busy
    then s
    else if connected s.cfg
    then await overview (record s { busy = true })
    else render_no_data "" s

-- An answer, or the text of the error, also of an answer that is not `ok`.
pub data Reply (A : Type 0) : Type 0 where
  good : A → Reply A
  bad : String → Reply A

unfoldable pub overview_answer : Reply Overview → Plugin → Plugin
overview_answer (good d) s = record (render_data d s) {
  cards_asked = s.cards_asked + 1;
  message = updated;
  busy = false;
}
overview_answer (bad e) s = record (render_no_data e s) { message = failed e; busy = false }

abbrev pub auto_refresh : Loader → Bool
auto_refresh (persist to_test) = false
auto_refresh mount = true
auto_refresh refresh = true

abbrev pub is_mount : Loader → Bool
is_mount mount = true
is_mount refresh = false
is_mount (persist to_test) = false

-- `loadConfig` after its `await`, inside its `try`
unfoldable pub config_loaded : Loader → Config → Plugin → Plugin
unfolding refresh_data
config_loaded l c s =
    let t : Plugin = record s { cfg = some c; form = fill_form c } in
    let u =
      if auto_refresh l && connected (some c)
      then refresh_data t
      else record t { bento = render_bento (some c) [] [] "" } in
    if is_mount l && ready (some c) then set_collapsed true u else u

-- What follows the `loadConfig` of `persistConfig`, in `saveConfig` or in `testConnection`.
unfoldable pub go_on : Loader → Plugin → Plugin
go_on mount s = s
go_on refresh s = s
go_on (persist false) s = record (set_collapsed true s) { message = saved }
go_on (persist true) s = await test s

unfoldable pub load_answer : Loader → Reply Config → Plugin → Plugin
unfolding config_loaded go_on
load_answer l (good c) s = go_on l (config_loaded l c s)
load_answer l (bad e) s = go_on l (record s { message = failed e })

unfoldable pub save_answer : Bool → Reply Unit → Plugin → Plugin
save_answer to_test (good u) s =
    await (load (persist to_test))
      (record s { form = record s.form { api_key = ""; password = "" } })
save_answer to_test (bad e) s = record s { message = failed e }

unfoldable pub test_answer : Reply Unit → Plugin → Plugin
test_answer (good u) s = record (set_collapsed true s) { message = connection_ok }
test_answer (bad e) s = record s { message = failed e }

abbrev pub same_loader : Loader → Loader → Bool
same_loader mount mount = true
same_loader refresh refresh = true
same_loader (persist true) (persist true) = true
same_loader (persist false) (persist false) = true
same_loader k l = false

abbrev pub same_call : Call → Call → Bool
same_call (load k) (load l) = same_loader k l
same_call (save true) (save true) = true
same_call (save false) (save false) = true
same_call test test = true
same_call overview overview = true
same_call c d = false

pub remove_call : Call → List Call → List Call
remove_call c [] = []
remove_call c (d ∷ ds) = if same_call c d then ds else d ∷ remove_call c ds

-- The answer to a call, if it is under way.
unfoldable pub on_answer : Call → (Plugin → Plugin) → Plugin → Plugin
unfolding remove_call
on_answer c f s =
    if any (same_call c) s.calls then f (record s { calls = remove_call c s.calls }) else s

-- `saveConfig` and `testConnection` up to their first `await`
abbrev pub press_save : Bool → Plugin → Plugin
press_save to_test s = await (save to_test) (record s {
  message = if to_test then testing else saving;
  posted = collect_config s.form ∷ s.posted;
})

pub data Event : Type 0 where
  typed : Form → Event
  save_pressed : (to_test : Bool) → Event
  toggled refresh_pressed refreshed inventory_opened : Event
  load_came : Loader → Reply Config → Event
  save_came : (to_test : Bool) → Reply Unit → Event
  test_came : Reply Unit → Event
  overview_came : Reply Overview → Event

abbrev pub open_inventory : Option Overview → Plugin → Plugin
open_inventory none s = refresh_data s
open_inventory (some d) s = s

unfoldable pub handle : Event → Plugin → Plugin
unfolding refresh_data on_answer load_answer save_answer test_answer overview_answer
handle (typed f) s = record s { form = f }
handle (save_pressed to_test) s = press_save to_test s
handle toggled s = set_collapsed (not s.collapsed) s
handle refresh_pressed s = refresh_data s
handle refreshed s = await (load refresh) s
handle inventory_opened s = open_inventory s.data_known s
handle (load_came l r) s = on_answer (load l) (load_answer l r) s
handle (save_came to_test r) s = on_answer (save to_test) (save_answer to_test r) s
handle (test_came r) s = on_answer test (test_answer r) s
handle (overview_came r) s = on_answer overview (overview_answer r) s

unfoldable pub run : List Event → Plugin → Plugin
unfolding handle
run [] s = s
run (e ∷ es) s = run es (handle e s)
