-- ===== src/Health/Score.antt =====
-- What the health score says of the issues that are found with it.
use mathlib.Core.List.{Perm, Memᴰ}
use tuxwall.Base.{
  ◌+◌, ◌-◌, ◌≤◌, ◌<◌, ◌≡◌, ◌↔◌, refl, ap, ◌∙◌, min, true, false, List, [], ◌∷◌, ◌++◌, arith, All,
  String, some, str_eq,
}
use mathlib.Core.Path.{ap₂}
use tuxwall.Base.Sort.{IsSorted, sort-perm, sort-IsSorted, All-sort}
use tuxwall.Services.{Service, Known, by_unit, ov_services, weight, is_active}
use tuxwall.Health.{
  Readings, charges, service_charge, service_charges, resource_charges, wan_charges,
  posture_charges, ids_charges, wan_is_down, Tally, collect, fewer_points, compute_ov_health,
  healthy, band, known_count,
}
use tuxwall.Health.Charges.{
  sum_points, sum_points-append, sum_points-sort, with_points, collect-issues, collect-lost,
  sum_points-with_points, with_points-positive, none_of_no_points,
}

abbrev start : Tally
start = record { lost = 0; issues = [] }

-- The issues found are the charges with points, the largest first.
pub compute_ov_health-issues :
    (r : Readings)
    → IsSorted fewer_points (compute_ov_health r).issues
      × Perm (compute_ov_health r).issues (with_points (charges r))
      × All (λ i. 0 < i.points) (compute_ov_health r).issues
unfolding compute_ov_health
compute_ov_health-issues r =
    let t = collect (charges r) start in
    let same : t.issues ≡ with_points (charges r) = collect-issues (charges r) start in
    (
      sort-IsSorted fewer_points (λ x y h. ground arith) (λ x y z h k. ground arith) t.issues,
      rw (← same) (sort-perm fewer_points t.issues),
      All-sort fewer_points (λ i. 0 < i.points) t.issues
          (rw same (with_points-positive (charges r))),
    )

points-eq : (r : Readings) → sum_points (compute_ov_health r).issues ≡ sum_points (charges r)
unfolding compute_ov_health
points-eq r =
    sum_points-sort (collect (charges r) start).issues
    ∙ ap sum_points (collect-issues (charges r) start)
    ∙ sum_points-with_points (charges r)

score-eq : (r : Readings) → (compute_ov_health r).score ≡ 100 - sum_points (charges r)
unfolding compute_ov_health
score-eq r = omega (arith, collect-lost (charges r) start)

-- The score and the points of the issues found make 100, or the points are more and the score is 0.
pub score-points :
    (r : Readings)
    → (compute_ov_health r).score + min 100 (sum_points (compute_ov_health r).issues) ≡ 100
score-points r = omega (arith, score-eq r, points-eq r)

-- The score is 100 exactly when no issue is found.
pub score-eq-100_iff :
    (r : Readings) → ((compute_ov_health r).score ≡ 100) ↔ ((compute_ov_health r).issues ≡ [])
score-eq-100_iff r = (
  (λ h. none_of_no_points _ (compute_ov_health-issues r).2 (omega (arith, h, score-points r))),
  (λ h. omega (arith, score-points r, ap sum_points h)),
)

-- The verdict is "Healthy" exactly when the issues found have at most 10 points together.
pub band-healthy_iff :
    (r : Readings)
    → (band (compute_ov_health r).score ≡ healthy) ↔ (sum_points (compute_ov_health r).issues ≤ 10)
unfolding band
band-healthy_iff r =
    ((λ h. ground (arith, score-points r, h)), (λ h. ground (arith, score-points r, h)))

sum_points-charges :
    (r : Readings)
    → sum_points (service_charges r.services ov_services) + sum_points (wan_charges r)
      ≤ sum_points (charges r)
unfolding charges
sum_points-charges r = omega (arith, sum_points-append)

sum_points-wan : (r : Readings) → wan_is_down r.wan_state ≡ true → 25 ≤ sum_points (wan_charges r)
unfolding wan_charges
sum_points-wan r h = rw h (omega (arith, sum_points-append))

sum_points-service :
    (k : Known) (rows : List Service) (ks : List Known) (s : Service)
    → Memᴰ k ks
    → by_unit rows k.unit ≡ some s
    → is_active s ≡ false
    → weight k.unit ≤ sum_points (service_charges rows ks)
unfolding service_charges
sum_points-service k rows (x ∷ ks) s (Memᴰ.head e) h a =
    let h' : by_unit rows x.unit ≡ some s = (rw (← e) h) in rw (← e, h) (ground (arith, a))
sum_points-service k rows (x ∷ ks) s (Memᴰ.tail m) h a = omega (
  arith,
  sum_points-append (service_charge x (by_unit rows x.unit)) (service_charges rows ks),
  sum_points-service k rows ks s m h a,
)
sum_points-service k rows [] s m h a = elim m [ ]

-- With a listed service installed and not active, the score is lower than 100 by the weight of the
-- service at least.
pub score-service :
    (r : Readings) (k : Known) (s : Service)
    → Memᴰ k ov_services
    → by_unit r.services k.unit ≡ some s
    → is_active s ≡ false
    → (compute_ov_health r).score ≤ 100 - weight k.unit
score-service r k s m h a =
    omega
      (arith, score-eq r, sum_points-charges r, sum_points-service k r.services ov_services s m h a)

-- With the WAN link down the score is at most 75.
pub score-wan_down :
    (r : Readings) → wan_is_down r.wan_state ≡ true → (compute_ov_health r).score ≤ 75
score-wan_down r h = omega (arith, score-eq r, sum_points-charges r, sum_points-wan r h)

-- A service that the overview does not list has no part in it.
by_unit-cons :
    (s : Service) (rows : List Service) (unit : String)
    → str_eq s.unit unit ≡ false
    → by_unit (s ∷ rows) unit ≡ by_unit rows unit
unfolding by_unit
by_unit-cons s rows unit h = ground (arith, h)

service_charges-cons :
    (s : Service) (rows : List Service) (ks : List Known)
    → All (λ k. str_eq s.unit k.unit ≡ false) ks
    → service_charges (s ∷ rows) ks ≡ service_charges rows ks
unfolding service_charges
service_charges-cons s rows [] h = refl
service_charges-cons s rows (k ∷ ks) h =
    ap₂ (λ o cs. service_charge k o ++ cs) (by_unit-cons s rows k.unit h.0)
      (service_charges-cons s rows ks h.1)

known_count-cons :
    (s : Service) (rows : List Service) (ks : List Known)
    → All (λ k. str_eq s.unit k.unit ≡ false) ks
    → known_count (s ∷ rows) ks ≡ known_count rows ks
unfolding known_count
known_count-cons s rows [] h = refl
known_count-cons s rows (k ∷ ks) h =
    ground (arith, by_unit-cons s rows k.unit h.0, known_count-cons s rows ks h.1)

-- A service whose unit is not in the overview's list changes neither the score nor the issues, in
-- whatever state it is.
pub unlisted_service :
    (r : Readings) (s : Service)
    → All (λ k. str_eq s.unit k.unit ≡ false) ov_services
    → compute_ov_health (record r { services = s ∷ r.services }) ≡ compute_ov_health r
unfolding compute_ov_health charges resource_charges wan_charges posture_charges ids_charges
unlisted_service r s h =
    rw
      (service_charges-cons s r.services ov_services h, known_count-cons s r.services ov_services h)
