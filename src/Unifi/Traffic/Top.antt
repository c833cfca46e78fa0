-- ===== src/Unifi/Traffic/Top.antt =====
-- The top of an axis against the values on it.
use native.Mathlib.Omega.{div_any}
use native.Mathlib.Nat.{mod-lt}
use tuxwall.Base.{
  ℕ, zero, suc, ◌+◌, ◌-◌, ◌*◌, ◌≤◌, ◌<◌, max, Option, none, some, List, [], ◌∷◌, leb, arith,
  if-elim, All,
}
use tuxwall.Unifi.Traffic.{power_below, ceil_div, nice_max, highest, axis_max}

-- A power of ten at most `n`, and the next one above it.
abbrev pub IsBelow : ℕ → ℕ → Type 0
IsBelow p n = (1 ≤ p) × (p ≤ n) × (n < 10 * p)

-- `k` rounds reach `n` from `p`, which grows by a factor of ten in each.
power_below-IsBelow :
    (k p n : ℕ) → 1 ≤ p → p ≤ n → n < p + k * 9 + 1 → IsBelow (power_below k p n) n
unfolding power_below
power_below-IsBelow zero p n a b c = (a, b, omega (arith, a, b, c))
power_below-IsBelow (suc k) p n a b c =
    if-elim (λ q. IsBelow q n) (leb (10 * p) n) (power_below k (10 * p) n) p
      (λ e.
        power_below-IsBelow k (10 * p) n (omega (arith, a)) (ground (arith, e))
          (omega (arith, a, c)))
      (λ e. (a, b, ground (arith, e)))

ceil_div-bounds : (a b : ℕ) → 1 ≤ b → (a ≤ b * ceil_div a b) × (b * ceil_div a b < a + b)
ceil_div-bounds a b h =
    let d = div_any (a + (b - 1)) b in
    let m = mod-lt (a + (b - 1)) {m = b} (omega (arith, h)) in
    (omega (arith, d, m, h), omega (arith, d, m, h))

-- For a value that is not 0 the top is at least 115 percent of it, and below 165 percent.
nice_max-bounds : (n : ℕ) → 1 ≤ n → (23 * n ≤ 10 * nice_max n) × (10 * nice_max n < 33 * n)
unfolding nice_max
nice_max-bounds zero h = omega (arith, h)
nice_max-bounds (suc m) h =
    let p = power_below m 1 (suc m) in
    let b = power_below-IsBelow m 1 (suc m) (omega arith) (omega arith) (omega arith) in
    let c = ceil_div-bounds (23 * suc m) (10 * p) (omega (arith, b.0)) in
    (omega (arith, c.0), omega (arith, c.1, b.1))

highest-ge : (least : ℕ) (bs : List (Option ℕ)) → least ≤ highest least bs
unfolding highest
highest-ge least [] = omega arith
highest-ge least (none ∷ bs) = highest-ge least bs
highest-ge least (some v ∷ bs) = omega (arith, highest-ge (max least v) bs)

-- A value that there is lies on the axis with a top of `top` halves.
abbrev pub IsOn : ℕ → Option ℕ → Type 0
IsOn top none = Unit
IsOn top (some v) = 2 * v ≤ top

highest-IsOn :
    (least top : ℕ) (bs : List (Option ℕ)) → 2 * highest least bs ≤ top → All (IsOn top) bs
unfolding highest
highest-IsOn least top [] h = tt
highest-IsOn least top (none ∷ bs) h = (tt, highest-IsOn least top bs h)
highest-IsOn least top (some v ∷ bs) h =
    (omega (arith, h, highest-ge (max least v) bs), highest-IsOn (max least v) top bs h)

-- The top of an axis is not below any value of its two lines, nor below the least top that was asked
-- for; and where that is not 0, there is at least 15 percent of room above the largest of them, and
-- less than 65 percent. So the clamp that a value goes through changes none.
pub axis_max-IsOn :
    (least : ℕ) (one other : List (Option ℕ))
    → All (IsOn (axis_max (suc least) one other)) one
      × All (IsOn (axis_max (suc least) one other)) other
      × (23 * highest (highest (suc least) one) other ≤ 10 * axis_max (suc least) one other)
      × (10 * axis_max (suc least) one other < 33 * highest (highest (suc least) one) other)
unfolding axis_max
axis_max-IsOn least one other =
    let low = highest (suc least) one in
    let n = highest low other in
    let above = highest-ge low other in
    let b = nice_max-bounds n (omega (arith, above, highest-ge (suc least) one)) in
    (
      highest-IsOn (suc least) (nice_max n) one (omega (arith, above, b.0)),
      highest-IsOn low (nice_max n) other (omega (arith, b.0)),
      b.0,
      b.1,
    )
