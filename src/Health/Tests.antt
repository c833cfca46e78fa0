-- ===== src/Health/Tests.antt =====
-- A reading of a router, and the theorems at it.
use tuxwall.Health.Shown.{IsFair, IsListed, render_ov_health-IsFair, render_ov_health-IsListed}
use tuxwall.Base.{ℕ, ◌≡◌, refl, true, none, some, List, [], ◌∷◌, String, String}
use tuxwall.Base.Texts.{codes}
use tuxwall.Services.{Service, weight, by_unit}
use tuxwall.Ipv4.{parse_int}
use tuxwall.Health.{
  render_ov_health, Readings, compute_ov_health, pool_size, charges, service_charges,
  resource_charges, wan_charges, posture_charges, ids_charges, dhcp_charge,
}

abbrev service : String → String → Service
service u a = record { unit = u; active = a; sub = "running" }

abbrev calm : Readings
calm = record {
  services = service "unbound.service" "active" ∷ service "radvd.service" "failed" ∷ [];
  cpu_pct = some 1200;
  mem_pct = some 8600;
  disk_pct = none;
  swap_pct = none;
  temp = 0;
  cores = 4;
  load1 = 50;
  loss_1h = some 0;
  current_ms = some 1100;
  jitter_ms = none;
  wan_state = "UP";
  upgradable = 0;
  backup_age = none;
  failed_units = 0;
  ids_enabled = true;
  ids_count = 0;
  ids_alerts = [];
  pools = [];
  leases = 0;
  has_uptime = true;
}

-- radvd costs 4 points and the memory 4.
calm_score : ((compute_ov_health calm).score ≡ 92) × ((compute_ov_health calm).known ≡ 2)
unfolding compute_ov_health charges service_charges resource_charges wan_charges posture_charges
    ids_charges dhcp_charge pool_size weight by_unit
calm_score = (refl, refl)

-- "192.168.1.10 - 192.168.1.19"
abbrev pool : List ℕ
pool = codes "192.168.1.10 - 192.168.1.19"

pool_size_test : pool_size (pool ∷ codes "junk" ∷ []) ≡ 10
unfolding pool_size parse_int
pool_size_test = refl

render_ov_health-IsFair_example : IsFair calm (render_ov_health (compute_ov_health calm))
render_ov_health-IsFair_example = render_ov_health-IsFair calm

render_ov_health-IsListed_example : IsListed calm (render_ov_health (compute_ov_health calm))
render_ov_health-IsListed_example = render_ov_health-IsListed calm
