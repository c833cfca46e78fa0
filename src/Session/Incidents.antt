-- ===== src/Session/Incidents.antt =====
-- The incidents: `isAdminUser`, `incidentItemHtml` and `renderIncidents`. A text is kept as what it
-- says; an id, which the buttons post, as it is.
use tuxwall.Base.{
  ℕ, zero, suc, ◌+◌, ◌≡◌, String, Bool, true, false, not, ◌&&◌, ◌||◌, Option, none, some, List, [],
  ◌∷◌, ◌++◌, map, ltb, ◌==◌, keep, take, length, if◌then◌else◌, arith, min,
}

pub record Incident : Type 0 where
  pub id : String
  -- `status === "active"`
  pub active : Bool
  pub acknowledged : Bool

pub record Feed : Type 0 where
  pub incidents : List Incident
  pub unacknowledged : ℕ
  pub critical : ℕ

pub data Button : Type 0 where
  no_button dismiss confirm : Button

-- `incidentItemHtml`
pub record Item : Type 0 where
  pub id : String
  pub is_resolved : Bool
  pub button : Button

abbrev pub item : Bool → Incident → Item
item admin i = record {
  id = i.id;
  is_resolved = not i.active;
  button =
      (if admin
        then if i.active then if i.acknowledged then no_button else confirm else dismiss
        else no_button);
}

-- "99+", or the number
pub data Badge : Type 0 where
  no_badge many : Badge
  number : ℕ → Badge

abbrev badge : ℕ → Badge
badge n = if n == 0 then no_badge else if ltb 99 n then many else number n

-- The panel: "N active, M critical" or "All clear", the items, and those under "Recent history".
pub record Panel : Type 0 where
  pub badge : Badge
  pub summary : Option (ℕ × ℕ)
  pub ack_all_hidden : Bool
  pub items : List Item
  pub history : List Item

abbrev pub active_ones : List Incident → List Incident
active_ones = keep (λ i. i.active)

abbrev pub resolved_ones : List Incident → List Incident
resolved_ones = keep (λ i. not i.active)

abbrev summary : ℕ → ℕ → Option (ℕ × ℕ)
summary active critical = if active == 0 then none else some (active, critical)

-- `renderIncidents`, for an admin or not
unfoldable pub render_incidents : Bool → Feed → Panel
render_incidents admin d = record {
  badge = badge d.unacknowledged;
  summary = summary (length (active_ones d.incidents)) d.critical;
  ack_all_hidden = not admin || d.unacknowledged == 0;
  items = map (item admin) (active_ones d.incidents);
  history = map (item admin) (take 12 (resolved_ones d.incidents));
}

abbrev pub has_button : Item → Bool
has_button t = elim t.button [ no_button ↦ false | dismiss ↦ true | confirm ↦ true ]

abbrev pub count {ℓ} : {A : Type ℓ} → (A → Bool) → List A → ℕ
count p xs = length (keep p xs)

-- What is still to be confirmed.
abbrev pub is_pending : Incident → Bool
is_pending i = i.active && not i.acknowledged

count-append :
    (xs ys : List Item) → count has_button (xs ++ ys) ≡ count has_button xs + count has_button ys
count-append [] ys = omega arith
count-append (x ∷ xs) ys = ground (arith, count-append xs ys)

active-buttons :
    (admin : Bool) (is : List Incident)
    → count has_button (map (item admin) (active_ones is))
      ≡ (if admin then count is_pending is else 0)
active-buttons admin [] = ground arith
active-buttons admin (i ∷ is) = ground (arith, active-buttons admin is)

resolved-buttons :
    (admin : Bool) (n : ℕ) (is : List Incident)
    → count has_button (map (item admin) (take n (resolved_ones is)))
      ≡ (if admin then min n (length (resolved_ones is)) else 0)
resolved-buttons admin zero is = ground arith
resolved-buttons admin (suc n) [] = ground arith
resolved-buttons admin (suc n) (i ∷ is) =
    ground (arith, resolved-buttons admin n is, resolved-buttons admin (suc n) is)

-- The buttons of the panel. An admin has one for each active incident that is not acknowledged and
-- one for each of the resolved incidents, of which at most 12 are listed; a viewer has none, and no
-- button that acknowledges all, which an admin has exactly if the server counts some as
-- unacknowledged.
pub render_incidents-buttons :
    (admin : Bool) (d : Feed)
    → (count has_button ((render_incidents admin d).items ++ (render_incidents admin d).history) ≡ (
        if admin
        then count is_pending d.incidents + min 12 (count (λ i. not i.active) d.incidents)
        else 0))
      × ((render_incidents admin d).ack_all_hidden ≡ not (admin && ltb 0 d.unacknowledged))
unfolding render_incidents
render_incidents-buttons admin d = (
  ground (
    arith,
    count-append (map (item admin) (active_ones d.incidents))
        (map (item admin) (take 12 (resolved_ones d.incidents))),
    active-buttons admin d.incidents,
    resolved-buttons admin 12 d.incidents,
  ),
  ground arith,
)
