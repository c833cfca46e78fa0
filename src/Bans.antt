-- ===== src/Bans.antt =====
-- www/scripts/dashboard.js: the community bans of tuxwall.org, `cbanFilteredRows`, `renderCommunityBans`,
-- `refreshCommunityBans`, the switch of the automatic mode, paging and filter, "Ban all shown", and
-- `updateShareStatus` with the click that registers. Of the browser's store the model has the one key
-- that they use; a counted text is kept as its numbers.
pub mod Shown
pub mod Sharing
mod Tests
use Prim.Native.String
use tuxwall.Base.{
  ℕ, zero, suc, ◌+◌, ◌-◌, ◌<◌, String, Bool, true, false, not, ◌&&◌, ◌||◌, Option, none, some, List,
  [], ◌∷◌, ◌++◌, map, ltb, leb, ◌==◌, str_eq, keep, take, length, min, if◌then◌else◌,
}

pub record Ban : Type 0 where
  pub ip : String
  pub severity : String

-- `data.auto`
pub record Auto : Type 0 where
  pub enabled : Bool
  pub last_sync : ℕ
  pub added_total : ℕ
  pub pending : ℕ

-- An answer of the API with `ok`. `reporters` is none where it is no finite number.
pub record Answer : Type 0 where
  pub bans : List Ban
  pub reporters : Option ℕ
  pub cached : Bool
  pub auto : Option Auto

-- `CBAN_SEV_RANK[s] || 0`
unfoldable pub rank : String → ℕ
rank s =
    if str_eq s "low"
    then 1
    else if str_eq s "medium"
    then 2
    else if str_eq s "high"
    then 3
    else if str_eq s "critical"
    then 4
    else 0

abbrev pub page_size : ℕ
page_size = 25

-- What the card shows.
pub record Page : Type 0 where
  pub rows : List Ban
  -- the number in "Ban all shown (N)", none while it says "Ban all shown (90d)"
  pub ban_all_label : Option ℕ
  pub ban_all_hidden : Bool
  pub ban_all_disabled : Bool
  -- "Load N more (shown of rows shown)"
  pub more : Option (ℕ × ℕ × ℕ)
  -- "rows of total IPs", and the reporters where they are known
  pub counted : Option (ℕ × ℕ)
  pub reporters : Option ℕ
  pub single_source : Bool
  pub auto_checked : Bool
  pub auto_disabled : Bool
  pub auto_badge : Bool
  -- the time of the last sync, and what is pending and ensured, in automatic mode
  pub stats : Option (ℕ × ℕ × ℕ)
  pub status : String

-- `communityBans`, the store's `CBAN_AUTO_KEY`, and the page
pub record Bans : Type 0 where
  pub known : Option Answer
  pub filter : String
  pub shown : ℕ
  pub loaded_at : ℕ
  pub auto : Option Auto
  pub cache : Option Auto
  pub page : Page

abbrev pub at_least : ℕ → Ban → Bool
at_least r b = leb r (rank b.severity)

-- `cbanFilteredRows`
unfoldable pub rows_of : Option Answer → String → List Ban
rows_of none filter = []
rows_of (some d) filter = keep (at_least (rank filter)) d.bans

abbrev pub is_enabled : Option Auto → Bool
is_enabled none = false
is_enabled (some a) = a.enabled

abbrev stats_of : Option Auto → Option (ℕ × ℕ × ℕ)
stats_of none = none
stats_of (some a) = if a.enabled then some (a.last_sync, a.pending, a.added_total) else none

-- `reportersKnown`
abbrev known_reporters : Option ℕ → Option ℕ
known_reporters none = none
known_reporters (some n) = if n == 0 then none else some n

abbrev is_single : Option ℕ → Bool
is_single none = false
is_single (some n) = ltb n 2

abbrev pub more_of : ℕ → ℕ → Option (ℕ × ℕ × ℕ)
more_of total shown =
    if ltb shown total then some (min page_size (total - shown), shown, total) else none

abbrev show_rows : Answer → List Ban → Bans → Page
show_rows d rows s = record (s.page) {
  rows = take s.shown rows;
  ban_all_label = some (length (take s.shown rows));
  ban_all_hidden = is_enabled s.auto;
  more = more_of (length rows) s.shown;
  counted = some (length rows, length d.bans);
  reporters = known_reporters d.reporters;
  single_source = is_single (known_reporters d.reporters);
  auto_checked = is_enabled s.auto;
  auto_badge = is_enabled s.auto;
  stats = stats_of s.auto;
}

pub render_known : Option Answer → Bans → Bans
unfolding rows_of
render_known none s = s
render_known (some d) s = record s { page = show_rows d (rows_of (some d) s.filter) s }

-- `renderCommunityBans`
unfoldable pub render : Bans → Bans
unfolding render_known
render s = render_known s.known s

abbrev pub with_status : String → Bans → Bans
with_status text s = record s { page = record (s.page) { status = text } }

-- `a || b`
abbrev pub or_else : Option Auto → Option Auto → Option Auto
or_else none b = b
or_else (some a) b = some a

abbrev pub off : Auto
off = record { enabled = false; last_sync = 0; added_total = 0; pending = 0 }

-- The answer to the request, or the message of the error.
pub data Reply (A : Type 0) : Type 0 where
  ok : A → Reply A
  failed : String → Reply A

-- `refreshCommunityBans` after its `await`
pub loaded : Reply Answer → ℕ → Bans → Bans
unfolding render
loaded (ok d) now s = with_status "" (
    render (record s {
      known = some d;
      auto = or_else d.auto (or_else s.auto (or_else s.cache (some off)));
      cache = or_else d.auto s.cache;
      loaded_at = now;
    }))
loaded (failed message) now s = with_status (String.◌++◌ "Error: " message) s

abbrev pub is_known : Option Answer → Bool
is_known none = false
is_known (some d) = true

-- Whether `refreshCommunityBans` asks the API, at `now`, in milliseconds.
abbrev pub asks : Bool → ℕ → Bans → Bool
asks force now s = force || not (is_known s.known && ltb (now - s.loaded_at) 300000)

-- `refreshCommunityBans` up to its `await`, or all of it where what is known is not old
unfoldable pub refresh : Bool → ℕ → Bans → Bans
unfolding render
refresh force now s = if asks force now s then with_status "Loading…" s else render s

-- The change of the switch up to its request, and what comes of it.
unfoldable pub auto_begin : Bool → Bans → Bans
auto_begin enabled s = record s {
  page = record (s.page) {
    auto_checked = enabled;
    auto_disabled = true;
    auto_badge = enabled;
    stats = none;
  };
}

pub auto_end : Bool → Reply (Option Auto) → Bans → Bans
unfolding render
auto_end enabled (ok a) s =
    let set = or_else a (some (record off { enabled = enabled })) in
    let shown = render (record s { auto = set; cache = set }) in
    record shown { page = record (shown.page) { auto_disabled = false } }
auto_end enabled (failed message) s = record s {
  page = record (s.page) {
    auto_checked = not enabled;
    auto_badge = not enabled;
    auto_disabled = false;
  };
}

-- the click on a severity
unfoldable pub choose_filter : String → Bans → Bans
unfolding render
choose_filter sev s = render (record s { filter = sev; shown = page_size })

-- the click on "Load more"
unfoldable pub load_more : Bans → Bans
unfolding render
load_more s = render (record s { shown = s.shown + page_size })

-- What "Ban all shown" posts, if the question is answered with yes.
unfoldable pub ban_all_ips : Bans → List String
unfolding rows_of
ban_all_ips s = map (λ b. b.ip) (take s.shown (rows_of s.known s.filter))

-- The loop of the click, over the addresses, each with the answer to its request, `true` for a ban
-- that was made.
pub record Tally : Type 0 where
  pub done : ℕ
  pub failures : ℕ

unfoldable pub ban_each : List (String × Bool) → Tally → Tally
ban_each [] t = t
ban_each ((ip, made) ∷ rest) t =
    ban_each rest
      (if made then record t { done = t.done + 1 } else record t { failures = t.failures + 1 })

-- The click on "Ban all shown" once it was confirmed, and its end.
unfoldable pub ban_all_begin : Bans → Bans
ban_all_begin s = record s { page = record (s.page) { ban_all_disabled = true } }

unfoldable pub ban_all_end : String → Bans → Bans
ban_all_end text s = record s { page = record (s.page) { ban_all_disabled = false; status = text } }

pub data Op : Type 0 where
  refreshed : (force : Bool) → (now : ℕ) → Op
  arrived : Reply Answer → (now : ℕ) → Op
  switched : (enabled : Bool) → Op
  switch_answered : (enabled : Bool) → Reply (Option Auto) → Op
  filtered : String → Op
  more_pressed : Op
  ban_all_pressed : Op
  ban_all_done : (status : String) → Op

pub apply : Op → Bans → Bans
unfolding refresh auto_begin choose_filter load_more ban_all_begin ban_all_end
apply (refreshed force now) s = refresh force now s
apply (arrived answer now) s = loaded answer now s
apply (switched enabled) s = auto_begin enabled s
apply (switch_answered enabled answer) s = auto_end enabled answer s
apply (filtered sev) s = choose_filter sev s
apply more_pressed s = load_more s
apply ban_all_pressed s = ban_all_begin s
apply (ban_all_done text) s = ban_all_end text s

pub run : List Op → Bans → Bans
unfolding apply
run [] s = s
run (o ∷ os) s = run os (apply o s)

abbrev pub blank_page : Page
blank_page = record {
  rows = [];
  ban_all_label = none;
  ban_all_hidden = false;
  ban_all_disabled = false;
  more = none;
  counted = none;
  reporters = none;
  single_source = false;
  auto_checked = false;
  auto_disabled = false;
  auto_badge = false;
  stats = none;
  status = "";
}

-- The card when the dashboard is loaded, with what the store holds.
abbrev pub start : Option Auto → Bans
start cache = record {
  known = none;
  filter = "all";
  shown = page_size;
  loaded_at = 0;
  auto = none;
  cache = cache;
  page = blank_page;
}
