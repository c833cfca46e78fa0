-- ===== src/Attackers.antt =====
-- www/scripts/dashboard.js, in `renderSecurity`: the table of the top attackers, which each poll
-- brings up to date row by row (`diffIpTable`) instead of writing it anew.
-- The children of the table's body are a list: rows with an address, and the placeholder row of an
-- empty table. The HTML of a cell is kept as the values that it shows; a date is kept as its
-- timestamp. Shares are rounded exactly.
pub mod Diff
pub mod Rows
use tuxwall.Base.{
  ℕ, ◌+◌, ◌*◌, ◌/◌, String, Bool, true, false, not, ◌||◌, Option, none, some, List, [], ◌∷◌, leb,
  ◌==◌, str_eq, if◌then◌else◌,
}
use tuxwall.Format.{Ago, format_relative}

pub data Threat : Type 0 where
  banned high med low : Threat

-- An entry of `by_ip`; a timestamp of 0 is missing.
pub record Attacker : Type 0 where
  pub ip : String
  pub location : String
  pub port : Option ℕ
  pub count : ℕ
  pub first : ℕ
  pub last : ℕ

-- What the closures of one `renderSecurity` call see.
pub record Scene : Type 0 where
  pub ip_max : ℕ
  pub is_banned : String → Bool
  pub cs_up : Bool
  -- seconds
  pub now : ℕ

-- `byIp[0] ? byIp[0].count : 1`
pub ip_max_of : List Attacker → ℕ
ip_max_of [] = 1
ip_max_of (e ∷ es) = e.count

-- `count / ipMax` is NaN or infinite for an `ipMax` of 0.
unfoldable pub threat_level : ℕ → ℕ → Threat
threat_level ip_max count =
    if ip_max == 0
    then (if count == 0 then low else high)
    else if leb ip_max (2 * count)
    then high
    else if leb (15 * ip_max) (100 * count)
    then med
    else low

-- the badge, and the `data-threat` of the row
unfoldable pub threat_badge : ℕ → ℕ → Bool → Threat
threat_badge ip_max count true = banned
threat_badge ip_max count false = threat_level ip_max count

-- `Math.round(count / ipMax * 100)`, none where that is not finite
unfoldable pub share : ℕ → ℕ → Option ℕ
share ip_max count = if ip_max == 0 then none else some ((200 * count + ip_max) / (2 * ip_max))

pub data Recency : Type 0 where
  plain fresh recent stale : Recency

unfoldable pub recency_class : ℕ → ℕ → Recency
recency_class now ts =
    if ts == 0
    then plain
    else if leb (now + 1) (ts + 300)
    then fresh
    else if leb (now + 1) (ts + 3600)
    then recent
    else if leb (ts + 86401) now
    then stale
    else plain

pub data Button : Type 0 where
  no_button ban unban : Button

unfoldable pub ban_button : Bool → Bool → Button
ban_button false is_banned = no_button
ban_button true true = unban
ban_button true false = ban

pub record Row : Type 0 where
  -- the data attributes, which the hover card reads
  pub ip : String
  pub location : String
  pub port : Option ℕ
  pub first : ℕ
  pub last : ℕ
  pub count : ℕ
  pub pct : Option ℕ
  pub is_banned : Bool
  pub threat : Threat
  -- the cells
  pub badge : Threat
  pub hits : ℕ
  pub bar : Option ℕ
  pub seen : Ago
  pub seen_title : ℕ
  pub recency : Recency
  pub button : Button
  pub report : String
  -- the span that the ISP lookup fills in, and the listeners on the row
  pub isp : String
  pub listens : Bool

-- `buildIpRow`, with the listeners that a new row is given once it stands in the table
unfoldable pub build_row : Scene → String → Attacker → Row
unfolding threat_badge share recency_class ban_button
build_row sc sev e =
    let b = sc.is_banned e.ip in
    let pct = share sc.ip_max e.count in
    record {
      ip = e.ip;
      location = e.location;
      port = e.port;
      first = e.first;
      last = e.last;
      count = e.count;
      pct = pct;
      is_banned = b;
      threat = threat_badge sc.ip_max e.count b;
      badge = threat_badge sc.ip_max e.count b;
      hits = e.count;
      bar = pct;
      seen = format_relative sc.now e.last;
      seen_title = e.last;
      recency = recency_class sc.now e.last;
      button = ban_button sc.cs_up b;
      report = sev;
      isp = "";
      listens = true;
    }

abbrev pub differs : Bool → Bool → Bool
differs true b = not b
differs false b = b

-- the cells that change with the count or the ban
update_counts : Scene → Attacker → Row → Row
update_counts sc e r =
    let b = sc.is_banned e.ip in
    let pct = share sc.ip_max e.count in
    if not (r.count == e.count) || differs r.is_banned b
    then record r {
      threat = threat_badge sc.ip_max e.count b;
      badge = threat_badge sc.ip_max e.count b;
      hits = e.count;
      bar = pct;
      count = e.count;
      pct = pct;
      is_banned = b;
    }
    else r

update_seen : Scene → Attacker → Row → Row
update_seen sc e r = if e.last == 0 then r else record r {
  seen = format_relative sc.now e.last;
  seen_title = e.last;
  recency = recency_class sc.now e.last;
}

-- the branch for a row that is there
unfoldable pub update_row : Scene → String → Attacker → Row → Row
unfolding update_counts update_seen
update_row sc sev e r =
    let r' = update_seen sc e (update_counts sc e r) in
    record r' { button = ban_button sc.cs_up (sc.is_banned e.ip); report = sev }
