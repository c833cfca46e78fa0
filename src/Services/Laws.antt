-- ===== src/Services/Laws.antt =====
-- The counts of the tabs and of the overview, and what is shown beside them.
use tuxwall.Base.{
  ◌+◌, ◌≤◌, ◌≡◌, refl, Bool, true, none, List, [], ◌∷◌, str_eq, keep, length, arith, Option-cases,
  inl, inr, All,
}
use tuxwall.Services.{
  Service, Known, by_unit, Counts, count_one, count_from, svc_tab_counts, active_tab, failed_tab,
  svc_matches_tab, Tab, ov_services, chip, Chip, ChipsView, chips_of, render_ov_services, add_chip,
}

-- The rows that a tab shows.
abbrev pub on_tab : Tab → List Service → List Service
on_tab tab rows = keep (svc_matches_tab tab) rows

count_from-length :
    (c : Counts) (rows : List Service)
    → ((count_from c rows).active ≡ c.active + length (on_tab active_tab rows))
      × ((count_from c rows).failed ≡ c.failed + length (on_tab failed_tab rows))
unfolding count_from svc_matches_tab
count_from-length c [] = (omega arith, omega arith)
count_from-length c (s ∷ ss) = ground (arith, count_from-length (count_one s c) ss)

on_tab-length :
    (rows : List Service)
    → length (on_tab active_tab rows) + length (on_tab failed_tab rows) ≡ length rows
unfolding svc_matches_tab
on_tab-length [] = omega arith
on_tab-length (s ∷ ss) = ground (arith, on_tab-length ss)

-- The number on each tab is the number of rows that the tab shows, and the two tabs together show
-- every service once.
pub svc_tab_counts-on_tab :
    (rows : List Service)
    → ((svc_tab_counts rows).active ≡ length (on_tab active_tab rows))
      × ((svc_tab_counts rows).failed ≡ length (on_tab failed_tab rows))
      × ((svc_tab_counts rows).active + (svc_tab_counts rows).failed ≡ length rows)
unfolding svc_tab_counts
svc_tab_counts-on_tab rows =
    let (a, f) = count_from-length (record { active = 0; failed = 0 }) rows in
    (omega (arith, a), omega (arith, f), omega (arith, a, f, on_tab-length rows))

abbrev Agrees : ChipsView → Type 0
Agrees v =
    (v.seen ≡ length v.chips)
    × (v.up ≤ v.seen)
    × All (λ (c : Chip). str_eq c.unit "nginx.service" ≡ true → c.action ≡ none) v.chips

chip-nginx :
    (is_admin : Bool) (s : Service) (k : Known)
    → str_eq (chip is_admin s k).unit "nginx.service" ≡ true
    → (chip is_admin s k).action ≡ none
unfolding chip
chip-nginx is_admin s k h = ground arith

add_chip-Agrees :
    (is_admin : Bool) (s : Service) (k : Known) (v : ChipsView)
    → Agrees v
    → Agrees (add_chip is_admin s k v)
add_chip-Agrees is_admin s k v (a, b, c) =
    (omega (arith, a), ground arith, (chip-nginx is_admin s k, c))

chips_of-Agrees :
    (is_admin : Bool) (rows : List Service) (ks : List Known) → Agrees (chips_of is_admin rows ks)
unfolding chips_of
chips_of-Agrees is_admin rows [] = (refl, omega arith, tt)
chips_of-Agrees is_admin rows (k ∷ ks) = elim (Option-cases (by_unit rows k.unit)) [
  | inl e ↦ rw (e, chips_of) (chips_of-Agrees is_admin rows ks)
  | inr (s, e) ↦
      rw (e, chips_of) (add_chip-Agrees is_admin s k _ (chips_of-Agrees is_admin rows ks))
]

-- The overview counts as many services as it shows chips, no more of them up than there are, and it
-- offers no button for nginx, which serves the dashboard.
pub render_ov_services-Agrees :
    (is_admin : Bool) (rows : List Service)
    → ((render_ov_services is_admin rows).seen ≡ length (render_ov_services is_admin rows).chips)
      × ((render_ov_services is_admin rows).up ≤ (render_ov_services is_admin rows).seen)
      × All
          (λ (c : Chip). str_eq c.unit "nginx.service" ≡ true → c.action ≡ none)
          (render_ov_services is_admin rows).chips
unfolding render_ov_services
render_ov_services-Agrees is_admin rows = chips_of-Agrees is_admin rows ov_services
