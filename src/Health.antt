-- ===== src/Health.antt =====
-- www/scripts/dashboard.js: the health score of the overview, `ovPenalty`, `computeOvHealth` and
-- `renderOvHealth`. Measurements (percent, degrees, load, milliseconds, days) are decimals with two
-- digits, kept as hundredths; `none` is a measurement that the API left out. The text of an issue
-- is kept as what it says. `usage`, `cpu`, `latency` and the like are flattened into one record.
pub mod Charges
pub mod Score
pub mod Shown
mod Tests
use tuxwall.Base.{
  ℕ, ◌+◌, ◌-◌, ◌*◌, ◌/◌, min, max, String, Bool, true, false, not, ◌&&◌, ◌||◌, Option, none, some,
  List, [], ◌∷◌, ◌++◌, ltb, leb, ◌==◌, str_eq, keep, length, take, if◌then◌else◌,
}
use tuxwall.Base.Sort.{sort}
use tuxwall.Services.{Service, Known, ov_services, weight, by_unit, is_active, is_failed}
use tuxwall.Ipv4.{split, trim, to_int}

pub data Severity : Type 0 where
  crit warn info : Severity

pub data Subject : Type 0 where
  service_failed service_stopped : String → Subject
  cpu_at memory_at disk_at swap_at temperature load : ℕ → Subject
  wan_loss wan_latency wan_jitter : ℕ → Subject
  wan_link : String → Subject
  updates backup_age backup_old failed_units ids_alerts : ℕ → Subject
  dhcp_pool : (pct leased size : ℕ) → Subject

pub record Issue : Type 0 where
  pub points : ℕ
  pub severity : Severity
  pub text : Subject
  pub view : String

abbrev pub issue : ℕ → Severity → Subject → String → Issue
issue p s t v = record { points = p; severity = s; text = t; view = v }

pub record Readings : Type 0 where
  pub services : List Service
  pub cpu_pct : Option ℕ
  pub mem_pct : Option ℕ
  pub disk_pct : Option ℕ
  pub swap_pct : Option ℕ
  -- 0 is falsy, as a missing temperature is
  pub temp : ℕ
  pub cores : ℕ
  pub load1 : ℕ
  pub loss_1h : Option ℕ
  pub current_ms : Option ℕ
  pub jitter_ms : Option ℕ
  -- "" where the state is missing
  pub wan_state : String
  pub upgradable : ℕ
  pub backup_age : Option ℕ
  pub failed_units : ℕ
  pub ids_enabled : Bool
  pub ids_count : ℕ
  -- the severities of the recent alerts
  pub ids_alerts : List String
  -- character codes
  pub pools : List (List ℕ)
  pub leases : ℕ
  pub has_uptime : Bool

-- `Math.round` of a number of hundredths
abbrev pub rounded : ℕ → ℕ
rounded x = (x + 50) / 100

-- Each block returns the calls of `ovPenalty` that it makes, in their order. A call with no points
-- is one that adds nothing.
service_charge : Known → Option Service → List Issue
service_charge k none = []
service_charge k (some s) =
    if is_active s
    then []
    else if is_failed s
    then issue (weight k.unit) crit (service_failed k.name) "system" ∷ []
    else issue (weight k.unit) warn (service_stopped k.name) "system" ∷ []

service_charges : List Service → List Known → List Issue
unfolding service_charge
service_charges rows [] = []
service_charges rows (k ∷ ks) = service_charge k (by_unit rows k.unit) ++ service_charges rows ks

-- `known`: the services that are installed
known_count : List Service → List Known → ℕ
known_count rows [] = 0
known_count rows (k ∷ ks) =
    (elim (by_unit rows k.unit) [ none ↦ 0 | some s ↦ 1 ]) + known_count rows ks

-- a charge for a reading that is there
abbrev charge_of : (ℕ → Issue) → Option ℕ → List Issue
charge_of f none = []
charge_of f (some x) = f x ∷ []

abbrev cpu_charge : ℕ → Issue
cpu_charge x =
    issue (if ltb 9000 x then 8 else if ltb 7500 x then 4 else 0)
      (if ltb 9000 x then crit else warn) (cpu_at (rounded x)) "system"

abbrev mem_charge : ℕ → Issue
mem_charge x =
    issue (if ltb 9200 x then 8 else if ltb 8500 x then 4 else 0)
      (if ltb 9200 x then crit else warn) (memory_at (rounded x)) "system"

abbrev disk_charge : ℕ → Issue
disk_charge x =
    issue (if ltb 9500 x then 15 else if ltb 9000 x then 8 else if ltb 8000 x then 3 else 0)
      (if ltb 9000 x then crit else warn) (disk_at (rounded x)) "system"

abbrev swap_charge : ℕ → Issue
swap_charge x = issue (if ltb 5000 x then 4 else 0) warn (swap_at (rounded x)) "system"

temp_charge : ℕ → List Issue
temp_charge x =
    if x == 0
    then []
    else issue (if ltb 8500 x then 10 else if ltb 7500 x then 5 else 0)
        (if ltb 8500 x then crit else warn) (temperature (rounded x)) "system"
      ∷ []

-- `cores || 1`, in hundredths
abbrev pub core_load : ℕ → ℕ
core_load cores = if cores == 0 then 100 else 100 * cores

load_charge : ℕ → ℕ → Issue
load_charge cores x =
    issue (if ltb (2 * core_load cores) x then 6 else if ltb (core_load cores) x then 3 else 0) warn
      (load x) "system"

resource_charges : Readings → List Issue
unfolding temp_charge load_charge
resource_charges r =
    charge_of cpu_charge r.cpu_pct
    ++ charge_of mem_charge r.mem_pct
    ++ charge_of disk_charge r.disk_pct
    ++ charge_of swap_charge r.swap_pct
    ++ temp_charge r.temp
    ++ load_charge r.cores r.load1 ∷ []

abbrev loss_charge : ℕ → Issue
loss_charge x =
    issue (if ltb 500 x then 12 else if ltb 100 x then 5 else 0) (if ltb 500 x then crit else warn)
      (wan_loss x) "overview"

abbrev rtt_charge : ℕ → Issue
rtt_charge x = issue (if ltb 15000 x then 5 else 0) warn (wan_latency (rounded x)) "overview"

abbrev jitter_charge : ℕ → Issue
jitter_charge x = issue (if ltb 3000 x then 4 else 0) warn (wan_jitter x) "overview"

abbrev pub wan_is_down : String → Bool
wan_is_down s = not (str_eq s "") && not (str_eq s "UP") && not (str_eq s "UNKNOWN")

link_charge : String → List Issue
link_charge s = if wan_is_down s then issue 25 crit (wan_link s) "overview" ∷ [] else []

wan_charges : Readings → List Issue
unfolding link_charge
wan_charges r =
    charge_of loss_charge r.loss_1h
    ++ charge_of rtt_charge r.current_ms
    ++ charge_of jitter_charge r.jitter_ms
    ++ link_charge r.wan_state

update_charge : ℕ → List Issue
update_charge n =
    if n == 0 then [] else issue (if ltb 30 n then 5 else 3) info (updates n) "system" ∷ []

backup_charge : Option ℕ → List Issue
backup_charge none = []
backup_charge (some age) =
    if ltb 3000 age
    then issue 4 info (backup_age (rounded age)) "backups" ∷ []
    else if ltb 1400 age
    then issue 2 info (backup_old (rounded age)) "backups" ∷ []
    else []

unit_charge : ℕ → List Issue
unit_charge n = if n == 0 then [] else issue (min 6 (n * 2)) warn (failed_units n) "system" ∷ []

posture_charges : Readings → List Issue
unfolding update_charge backup_charge unit_charge
posture_charges r =
    update_charge r.upgradable ++ backup_charge r.backup_age ++ unit_charge r.failed_units

abbrev pub high_alerts : List String → ℕ
high_alerts ss = length (keep (λ s. str_eq s "HIGH") ss)

-- `Math.ceil(high / 8)` is `(high + 7) / 8`.
ids_charges : Readings → List Issue
ids_charges r =
    let high = high_alerts r.ids_alerts in
    if r.ids_enabled && ltb 0 r.ids_count && ltb 0 high
    then issue (min 6 (max 2 ((high + 7) / 8))) warn (ids_alerts high) "security" ∷ []
    else []

-- One range "a-b" of the DHCP pools; a text that is no such range counts for nothing.
range_size : List (List ℕ) → ℕ
range_size (a ∷ b ∷ []) =
    let from = to_int (trim a) in
    let to = to_int (trim b) in if leb from to then to - from + 1 else 0
range_size _ = 0

pub pool_size : List (List ℕ) → ℕ
unfolding range_size to_int trim split
pool_size [] = 0
pool_size (p ∷ ps) = range_size (split b'-' p) + pool_size ps

-- `Math.round(leased / poolSize * 100)`, rounded exactly
abbrev pub pool_pct : ℕ → ℕ → ℕ
pool_pct leased size = (200 * leased + size) / (2 * size)

dhcp_charge : ℕ → ℕ → List Issue
dhcp_charge size leased =
    let pct = pool_pct leased size in
    if size == 0
    then []
    else if ltb 90 pct
    then issue 6 crit (dhcp_pool pct leased size) "clients" ∷ []
    else if ltb 80 pct
    then issue 3 warn (dhcp_pool pct leased size) "clients" ∷ []
    else []

pub charges : Readings → List Issue
charges r =
    service_charges r.services ov_services
    ++ resource_charges r
    ++ wan_charges r
    ++ posture_charges r
    ++ ids_charges r
    ++ dhcp_charge (pool_size r.pools) r.leases

pub record Tally : Type 0 where
  pub lost : ℕ
  pub issues : List Issue

-- `lost += ovPenalty(issues, …)`
unfoldable pub penalty : Issue → Tally → Tally
penalty i t =
    if leb i.points 0 then t else record { lost = t.lost + i.points; issues = t.issues ++ i ∷ [] }

unfoldable pub collect : List Issue → Tally → Tally
unfolding penalty
collect [] t = t
collect (i ∷ is) t = collect is (penalty i t)

pub record Health : Type 0 where
  pub score : ℕ
  pub issues : List Issue
  pub known : ℕ
  pub ready : Bool

-- `(a, b) => b.points - a.points`
abbrev pub fewer_points : Issue → Issue → Bool
fewer_points a b = ltb a.points b.points

-- `Math.max(0, …)` is the subtraction, which stops at 0.
unfoldable pub compute_ov_health : Readings → Health
unfolding collect sort known_count
compute_ov_health r =
    let t = collect (charges r) (record { lost = 0; issues = [] }) in
    let known = known_count r.services ov_services in
    record {
      score = min 100 (100 - t.lost);
      issues = sort fewer_points t.issues;
      known = known;
      ready = ltb 0 known || r.has_uptime;
    }

-- `OV_HEALTH_BANDS`
pub data Band : Type 0 where
  healthy good degraded at_risk critical : Band

unfoldable pub band : ℕ → Band
band score =
    if leb 90 score
    then healthy
    else if leb 75 score
    then good
    else if leb 50 score
    then degraded
    else if leb 25 score
    then at_risk
    else critical

pub data HealthView : Type 0 where
  checking : HealthView
  verdict : (score : ℕ) → Band → (shown : List Issue) → (more : ℕ) → HealthView

-- `renderOvHealth`: at most six issues, and the number of the others
unfoldable pub render_ov_health : Health → HealthView
unfolding band
render_ov_health h =
    if h.ready
    then verdict h.score (band h.score) (take 6 h.issues)
        (length h.issues - length (take 6 h.issues))
    else checking
