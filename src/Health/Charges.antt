-- ===== src/Health/Charges.antt =====
-- The points of a list of charges, and what collecting them does.
use tuxwall.Base.{
  append_nil, ℕ, ◌+◌, ◌<◌, ◌≡◌, refl, ap, sym, ◌∙◌, List, [], ◌∷◌, ◌++◌, ltb, keep, arith,
  Bool-cases, inl, inr, All,
}
use tuxwall.Base.Sort.{insert, sort}
use tuxwall.Health.{Issue, Tally, penalty, collect, fewer_points}

abbrev pub sum_points : List Issue → ℕ
sum_points [] = 0
sum_points (i ∷ is) = i.points + sum_points is

pub sum_points-append : (xs ys : List Issue) → sum_points (xs ++ ys) ≡ sum_points xs + sum_points ys
sum_points-append [] ys = omega arith
sum_points-append (x ∷ xs) ys = omega (arith, sum_points-append xs ys)

sum_points-insert :
    (i : Issue) (is : List Issue) → sum_points (insert fewer_points i is) ≡ i.points + sum_points is
unfolding insert
sum_points-insert i [] = refl
sum_points-insert i (x ∷ xs) = ground (arith, sum_points-insert i xs)

pub sum_points-sort : (is : List Issue) → sum_points (sort fewer_points is) ≡ sum_points is
unfolding sort
sum_points-sort [] = refl
sum_points-sort (x ∷ xs) =
    sum_points-insert x (sort fewer_points xs) ∙ ap (x.points +◌) (sum_points-sort xs)

-- the charges that count
abbrev pub with_points : List Issue → List Issue
with_points = keep (λ i. ltb 0 i.points)

append_cons : (xs : List Issue) (i : Issue) (ys : List Issue) → (xs ++ i ∷ []) ++ ys ≡ xs ++ i ∷ ys
append_cons [] i ys = refl
append_cons (x ∷ xs) i ys = ap (x ∷◌) (append_cons xs i ys)

pub collect-issues :
    (is : List Issue) (t : Tally) → (collect is t).issues ≡ t.issues ++ with_points is
unfolding collect
collect-issues [] t = sym (append_nil t.issues)
collect-issues (i ∷ is) t =
    ground (arith, collect-issues is (penalty i t), append_cons t.issues i (with_points is))

pub collect-lost : (is : List Issue) (t : Tally) → (collect is t).lost ≡ t.lost + sum_points is
unfolding collect
collect-lost [] t = omega arith
collect-lost (i ∷ is) t = ground (arith, collect-lost is (penalty i t))

pub sum_points-with_points : (is : List Issue) → sum_points (with_points is) ≡ sum_points is
sum_points-with_points [] = refl
sum_points-with_points (i ∷ is) = ground (arith, sum_points-with_points is)

pub with_points-positive : (is : List Issue) → All (λ i. 0 < i.points) (with_points is)
with_points-positive [] = tt
with_points-positive (i ∷ is) = elim (Bool-cases (ltb 0 i.points)) [
  | inl e ↦ rw e (ground arith, with_points-positive is)
  | inr e ↦ rw e (with_points-positive is)
]

pub none_of_no_points : (is : List Issue) → All (λ i. 0 < i.points) is → sum_points is ≡ 0 → is ≡ []
none_of_no_points [] h k = refl
none_of_no_points (i ∷ is) h k = absurd (omega (arith, h.0))
