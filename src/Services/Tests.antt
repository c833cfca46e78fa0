-- ===== src/Services/Tests.antt =====
-- The views of three services.
use tuxwall.Base.{◌≡◌, refl, String, true, List, [], ◌∷◌}
use tuxwall.Services.{Service, failed_tab, render_ov_services, render_services}

abbrev service : String → String → Service
service u a = record { unit = u; active = a; sub = "running" }

abbrev three : List Service
three =
    service "nginx.service" "active"
    ∷ service "radvd.service" "failed"
    ∷ service "cron.service" "active"
    ∷ []

render_test :
    ((render_services true failed_tab three).failed ≡ 1)
    × ((render_ov_services true three).seen ≡ 2)
unfolding render_services render_ov_services
render_test = (refl, refl)
