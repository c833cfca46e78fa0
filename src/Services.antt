-- ===== src/Services.antt =====
-- www/scripts/dashboard.js: the services of the router, `OV_SERVICES`, `OV_SERVICE_WEIGHT`,
-- `svcTabCounts`, `svcMatchesTab`, the table of `renderServices` and the chips of
-- `renderOvServices`. HTML is kept as the labels, classes and buttons that it shows.
pub mod Laws
mod Tests
use tuxwall.Base.{
  ℕ, ◌+◌, String, Bool, true, false, not, ◌&&◌, Option, none, some, List, [], ◌∷◌, map, str_eq,
  keep, length, if◌then◌else◌,
}

pub record Service : Type 0 where
  pub unit : String
  pub active : String
  pub sub : String

pub record Known : Type 0 where
  pub unit : String
  pub name : String

abbrev known : String → String → Known
known u n = record { unit = u; name = n }

-- `OV_SERVICES`
abbrev pub ov_services : List Known
ov_services =
    known "unbound.service" "Unbound DNS"
    ∷ known "kea-dhcp4-server.service" "Kea DHCP"
    ∷ known "radvd.service" "radvd"
    ∷ known "nginx.service" "nginx"
    ∷ known "suricata.service" "Suricata IDS"
    ∷ known "crowdsec.service" "CrowdSec"
    ∷ known "crowdsec-firewall-bouncer.service" "CS Bouncer"
    ∷ known "wg-quick@wg0.service" "WireGuard"
    ∷ known "tuxwall.service" "tuxwall"
    ∷ known "tuxwall-agent.service" "tuxwall-agent"
    ∷ known "tuxwall-sqm.service" "tuxwall-sqm"
    ∷ []

-- `OV_SERVICE_WEIGHT`
abbrev pub weights : List (String × ℕ)
weights =
    ("unbound.service", 25)
    ∷ ("tuxwall-nat.service", 14)
    ∷ ("kea-dhcp4-server.service", 12)
    ∷ ("nginx.service", 8)
    ∷ ("tuxwall.service", 8)
    ∷ ("suricata.service", 7)
    ∷ ("crowdsec.service", 7)
    ∷ ("crowdsec-firewall-bouncer.service", 5)
    ∷ ("wg-quick@wg0.service", 4)
    ∷ ("radvd.service", 4)
    ∷ ("tuxwall-sqm.service", 2)
    ∷ ("tuxwall-agent.service", 1)
    ∷ []

weight_in : List (String × ℕ) → String → ℕ
weight_in [] unit = 3
weight_in ((u, w) ∷ ws) unit = if str_eq u unit then w else weight_in ws unit

-- `OV_SERVICE_WEIGHT[unit] || 3`
unfoldable pub weight : String → ℕ
unfolding weight_in
weight unit = weight_in weights unit

-- `new Map(rows.map(r => [r.unit, r]))`: of two rows for one unit the later
unfoldable pub by_unit : List Service → String → Option Service
by_unit [] unit = none
by_unit (s ∷ ss) unit = elim (by_unit ss unit) [
  | some x ↦ some x
  | none ↦ if str_eq s.unit unit then some s else none
]

abbrev pub is_active : Service → Bool
is_active s = str_eq s.active "active"

abbrev pub is_failed : Service → Bool
is_failed s = str_eq s.active "failed"

pub record Counts : Type 0 where
  pub active : ℕ
  pub failed : ℕ

abbrev count_one : Service → Counts → Counts
count_one s c =
    if is_active s then record c { active = c.active + 1 } else record c { failed = c.failed + 1 }

count_from : Counts → List Service → Counts
count_from c [] = c
count_from c (s ∷ ss) = count_from (count_one s c) ss

unfoldable pub svc_tab_counts : List Service → Counts
unfolding count_from
svc_tab_counts rows = count_from (record { active = 0; failed = 0 }) rows

pub data Tab : Type 0 where
  active_tab failed_tab : Tab

unfoldable pub svc_matches_tab : Tab → Service → Bool
svc_matches_tab active_tab s = is_active s
svc_matches_tab failed_tab s = not (is_active s)

pub data Action : Type 0 where
  start stop restart reload : Action

pub record TableRow : Type 0 where
  pub service : Service
  pub actions : List Action

unfoldable pub table_row : Bool → Service → TableRow
table_row is_admin s = record {
  service = s;
  actions =
      if is_admin then (if is_active s then restart ∷ reload ∷ stop ∷ [] else start ∷ []) else [];
}

-- `renderServices`: the numbers on the tabs and the rows of the tab that is open
pub record ServicesView : Type 0 where
  pub counts : Counts
  pub failed : ℕ
  pub rows : List TableRow

unfoldable pub render_services : Bool → Tab → List Service → ServicesView
unfolding svc_tab_counts svc_matches_tab table_row
render_services is_admin tab rows = record {
  counts = svc_tab_counts rows;
  failed = length (keep is_failed rows);
  rows = map (table_row is_admin) (keep (svc_matches_tab tab) rows);
}

pub data State : Type 0 where
  failed running active stopped : State

pub record Chip : Type 0 where
  pub unit : String
  pub state : State
  pub action : Option Action

-- `OV_PROTECTED_SERVICES`
abbrev is_protected : String → Bool
is_protected unit = str_eq unit "nginx.service"

abbrev pub state_of : Service → State
state_of s =
    if is_failed s
    then failed
    else if is_active s
    then (if str_eq s.sub "running" then running else active)
    else stopped

unfoldable pub chip : Bool → Service → Known → Chip
chip is_admin s k = record {
  unit = k.unit;
  state = state_of s;
  action =
      if is_admin && not (is_protected k.unit)
      then some (if is_active s then restart else start)
      else none;
}

pub record ChipsView : Type 0 where
  pub chips : List Chip
  pub up : ℕ
  pub seen : ℕ

abbrev add_chip : Bool → Service → Known → ChipsView → ChipsView
add_chip is_admin s k v = record {
  chips = chip is_admin s k ∷ v.chips;
  up = (if is_active s then v.up + 1 else v.up);
  seen = v.seen + 1;
}

-- the loop of `renderOvServices`, from the last service to the first
chips_of : Bool → List Service → List Known → ChipsView
unfolding chip
chips_of is_admin rows [] = record { chips = []; up = 0; seen = 0 }
chips_of is_admin rows (k ∷ ks) =
    let v = chips_of is_admin rows ks in
    elim (by_unit rows k.unit) [ none ↦ v | some s ↦ add_chip is_admin s k v ]

unfoldable pub render_ov_services : Bool → List Service → ChipsView
unfolding chips_of by_unit
render_ov_services is_admin rows = chips_of is_admin rows ov_services
