-- ===== src/Health/Shown.antt =====
-- What the overview shows of the health score and its issues.
use mathlib.Core.List.{Perm}
use tuxwall.Base.{
  ℕ, zero, suc, ◌+◌, ◌-◌, ◌≤◌, ◌≡◌, refl, sym, ap, ◌∙◌, min, false, List, [], ◌∷◌, ◌++◌, arith, All,
  take, drop, length, length-take, if-elim,
}
use mathlib.Core.Path.{subst}
use tuxwall.Base.Sort.{IsSorted}
use tuxwall.Health.{
  Readings, Issue, HealthView, checking, verdict, charges, fewer_points, compute_ov_health,
  render_ov_health,
}
use tuxwall.Health.Charges.{sum_points, sum_points-append, with_points}
use tuxwall.Health.Score.{compute_ov_health-issues, score-points}

-- No issue stands before one that has more points.
abbrev pub IsDescending : List Issue → Type 0
IsDescending [] = Unit
IsDescending (i ∷ is) = All (λ j. j.points ≤ i.points) is × IsDescending is

-- What is left of the issues found below those that are listed.
abbrev pub unlisted : Readings → List Issue → List Issue
unlisted r shown = drop (length shown) (compute_ov_health r).issues

-- The list, and the number of those that are only counted, against the charges.
abbrev pub IsListed : Readings → HealthView → Type 0
IsListed r checking = (compute_ov_health r).ready ≡ false
IsListed r (verdict score b shown more) =
    Perm (shown ++ unlisted r shown) (with_points (charges r))
    × IsDescending (shown ++ unlisted r shown)
    × (length shown ≡ min 6 (length (shown ++ unlisted r shown)))
    × (more ≡ length (unlisted r shown))

-- The score against the points of the issues that are listed, and of all.
abbrev pub IsFair : Readings → HealthView → Type 0
IsFair r checking = (compute_ov_health r).ready ≡ false
IsFair r (verdict score b shown more) =
    (score + min 100 (sum_points shown + sum_points (unlisted r shown)) ≡ 100)
    × (more ≡ length (unlisted r shown))

take-drop : (n : ℕ) (is : List Issue) → take n is ++ drop n is ≡ is
take-drop zero is = refl
take-drop (suc n) [] = refl
take-drop (suc n) (i ∷ is) = ap (i ∷◌) (take-drop n is)

drop-length-take : (n : ℕ) (is : List Issue) → drop (length (take n is)) is ≡ drop n is
drop-length-take zero is = refl
drop-length-take (suc n) [] = refl
drop-length-take (suc n) (i ∷ is) = drop-length-take n is

length-drop : (n : ℕ) (is : List Issue) → length is - length (take n is) ≡ length (drop n is)
length-drop zero is = omega arith
length-drop (suc n) [] = omega arith
length-drop (suc n) (i ∷ is) = omega (arith, length-drop n is)

All-le :
    (i : Issue) (is : List Issue)
    → All (λ j. fewer_points i j ≡ false) is
    → All (λ j. j.points ≤ i.points) is
All-le i [] h = tt
All-le i (j ∷ is) h = (ground (arith, h.0), All-le i is h.1)

sorted-IsDescending : (is : List Issue) → IsSorted fewer_points is → IsDescending is
sorted-IsDescending [] h = tt
sorted-IsDescending (i ∷ is) h = (All-le i is h.0, sorted-IsDescending is h.1)

all_of : (is : List Issue) → take 6 is ++ drop (length (take 6 is)) is ≡ is
all_of is = ap (take 6 is ++◌) (drop-length-take 6 is) ∙ take-drop 6 is

counted_only :
    (is : List Issue) → length is - length (take 6 is) ≡ length (drop (length (take 6 is)) is)
counted_only is = length-drop 6 is ∙ ap length (sym (drop-length-take 6 is))

-- What the overview shows once it is ready: the issues that it lists and those that it only counts
-- are together exactly the charges with points, none lost or doubled, the largest first; at most six
-- are listed, and fewer only where there are no more; the number beside the list is that of the rest.
pub render_ov_health-IsListed : (r : Readings) → IsListed r (render_ov_health (compute_ov_health r))
unfolding render_ov_health
render_ov_health-IsListed r =
    let h = compute_ov_health r in
    let is = h.issues in
    let (sorted, same, _) = compute_ov_health-issues r in
    if-elim (IsListed r) h.ready _ checking
      (λ e. (
        subst (λ l. Perm l (with_points (charges r))) (sym (all_of is)) same,
        subst IsDescending (sym (all_of is)) (sorted-IsDescending is sorted),
        length-take 6 is ∙ ap (λ l. min 6 (length l)) (sym (all_of is)),
        counted_only is,
      ))
      (λ e. e)

-- What the overview shows once it is ready: the score, the points of the issues that it lists and
-- those of the issues that it only counts make 100, or the points are more and the score is 0.
pub render_ov_health-IsFair : (r : Readings) → IsFair r (render_ov_health (compute_ov_health r))
unfolding render_ov_health
render_ov_health-IsFair r =
    let h = compute_ov_health r in
    let is = h.issues in
    if-elim (IsFair r) h.ready _ checking
      (λ e. (
        omega (
          arith,
          score-points r,
          sum_points-append (take 6 is) (drop (length (take 6 is)) is),
          ap sum_points (all_of is),
        ),
        counted_only is,
      ))
      (λ e. e)
