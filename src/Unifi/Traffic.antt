-- ===== src/Unifi/Traffic.antt =====
-- plugins/wifi-unifi-plugin/web/plugin.js: of `renderTraffic` the pieces of a line, `segments`, and the
-- top of an axis, `niceMax`. Values are whole numbers; a point of a line is kept as the index and the
-- value that its place is computed from.
pub mod Gaps
pub mod Top
use tuxwall.Base.{
  ℕ, zero, suc, ◌+◌, ◌-◌, ◌*◌, ◌/◌, max, Bool, Option, none, some, List, [], ◌∷◌, ◌++◌, leb,
  if◌then◌else◌,
}

pub record Point : Type 0 where
  pub index : ℕ
  pub value : ℕ

-- `if (cur.length) out.push(cur)`
abbrev pub flush : List (List Point) → List Point → List (List Point)
flush out [] = out
flush out (p ∷ ps) = out ++ (p ∷ ps) ∷ []

-- The loop over the buckets, from index `i` on.
unfoldable pub segments_from :
    ℕ → List (Option ℕ) → List (List Point) → List Point → List (List Point)
segments_from i [] out cur = flush out cur
segments_from i (none ∷ bs) out cur = segments_from (suc i) bs (flush out cur) []
segments_from i (some v ∷ bs) out cur =
    segments_from (suc i) bs out (cur ++ record { index = i; value = v } ∷ [])

unfoldable pub segments : List (Option ℕ) → List (List Point)
unfolding segments_from
segments buckets = segments_from 0 buckets [] []

-- `Math.pow(10, Math.floor(Math.log10(n)))`, searched for from `p` on
unfoldable pub power_below : ℕ → ℕ → ℕ → ℕ
power_below zero p n = p
power_below (suc k) p n = let rest = power_below k (10 * p) n in if leb (10 * p) n then rest else p

abbrev pub ceil_div : ℕ → ℕ → ℕ
ceil_div a b = (a + (b - 1)) / b

-- `niceMax`, in halves, since its steps are halves of a power of ten
unfoldable pub nice_max : ℕ → ℕ
unfolding power_below
nice_max zero = 2
nice_max (suc m) = let p = power_below m 1 (suc m) in ceil_div (23 * suc m) (10 * p) * p

-- The largest value of a line, or `least` if that is more.
pub highest : ℕ → List (Option ℕ) → ℕ
highest least [] = least
highest least (none ∷ bs) = highest least bs
highest least (some v ∷ bs) = highest (max least v) bs

-- The top of an axis, in halves, for the two lines on it.
unfoldable pub axis_max : ℕ → List (Option ℕ) → List (Option ℕ) → ℕ
unfolding nice_max highest
axis_max least one other = nice_max (highest (highest least one) other)
