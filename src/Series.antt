-- ===== src/Series.antt =====
-- www/scripts/dashboard.js: the series behind the charts, `smoothSeries`, `smoothPasses`,
-- `smoothCurvePath`, `sweepRows`, `sweepValueAt` and `mergeInterfaceHistory`. Times and values are whole numbers of some unit. A value
-- between two points is a quotient, `num / den`, and a smoothed series is kept times a power of four,
-- so that no rounding is needed.
pub mod Search
pub mod Merge
pub mod Smooth
mod Tests
use tuxwall.Base.{
  ℕ, zero, suc, ◌+◌, ◌-◌, ◌*◌, ◌/◌, Bool, true, false, Option, none, some, List, [], ◌∷◌, ◌++◌, map,
  min, ltb, leb, ◌==◌, length, get_elem?, if◌then◌else◌, max,
}
use tuxwall.Base.Sort.{sort}

-- one of the `[ts, v]` of a column
pub record Point : Type 0 where
  pub ts : ℕ
  pub v : ℕ

pub data Value : Type 0 where
  nothing : Value
  hold : ℕ → Value
  quotient : (num den : ℕ) → Value
  -- the access to an element that is not there
  fault : Value

-- `a[1] + (b[1] - a[1]) * f` over the denominator of `f`. It is called with `a.ts ≤ t < b.ts`, so in
-- whole numbers the denominator is not below the 1e-6 of the code.
abbrev pub lerp : Point → Point → ℕ → Value
lerp a b t = quotient (a.v * (b.ts - t) + b.v * (t - a.ts)) (b.ts - a.ts)

pub record Span : Type 0 where
  pub lo : ℕ
  pub hi : ℕ

-- `(lo + hi) >> 1`
abbrev pub middle : Span → ℕ
middle s = (s.lo + s.hi) / 2

-- The body of the loop, on the time at `mid`.
abbrev pub narrow : ℕ → Span → ℕ → Span
narrow t s ts = if leb ts t then record s { lo = middle s } else record s { hi = middle s }

-- `while (hi - lo > 1)`, with the rounds left; none if it reads what is not there or the rounds are
-- used up.
abbrev pub search_at : (Span → Option Span) → ℕ → Span → Option Point → Option Span
search_at next t s none = none
search_at next t s (some p) = next (narrow t s p.ts)

unfoldable pub search : ℕ → List Point → ℕ → Span → Option Span
search zero pairs t s = if ltb 1 (s.hi - s.lo) then none else some s
search (suc k) pairs t s =
    let rest = search_at (search k pairs t) t s (get_elem? pairs (middle s)) in
    if ltb 1 (s.hi - s.lo) then rest else some s

abbrev pub between : Option Point → Option Point → ℕ → Value
between (some a) (some b) t = lerp a b t
between (some a) none t = fault
between none b t = fault

abbrev pub at_span : List Point → ℕ → Option Span → Value
at_span pairs t none = fault
at_span pairs t (some s) = between (get_elem? pairs s.lo) (get_elem? pairs s.hi) t

abbrev pub last_of : Point → List Point → Point
last_of p [] = p
last_of p (q ∷ qs) = last_of q qs

-- The loop has as many rounds as there are points.
unfoldable pub sweep_value_at : List Point → ℕ → Value
unfolding search
sweep_value_at [] t = nothing
sweep_value_at (p ∷ ps) t =
    if leb t p.ts
    then hold p.v
    else if leb (last_of p ps).ts t
    then hold (last_of p ps).v
    else at_span (p ∷ ps) t
        (search (length (p ∷ ps)) (p ∷ ps) t (record { lo = 0; hi = length ps }))

-- One row of `sweepRows`: point `i` of the window, its time rounded down.
pub record Row : Type 0 where
  pub at : ℕ
  pub values : List Value

sweep_rows_from : ℕ → ℕ → ℕ → ℕ → ℕ → List (List Point) → List Row
unfolding sweep_value_at
sweep_rows_from zero i t0 window pts cols = []
sweep_rows_from (suc k) i t0 window pts cols =
    let t = t0 + window * i / (pts - 1) in
    record { at = t; values = map (λ c. sweep_value_at c t) cols }
    ∷ sweep_rows_from k (suc i) t0 window pts cols

unfoldable pub sweep_rows : ℕ → ℕ → ℕ → List (List Point) → List Row
unfolding sweep_rows_from
sweep_rows now window pts cols = sweep_rows_from pts 0 (now - window) window pts cols

-- A sample `[ts, rx, tx]` of an interface.
pub record Sample : Type 0 where
  pub ts : ℕ
  pub rx : ℕ
  pub tx : ℕ

-- The body of the loops of `mergeInterfaceHistory`; the `Map` is the list of its values in the order
-- in which their keys came.
pub add_sample : Sample → List Sample → List Sample
add_sample s [] = s ∷ []
add_sample s (c ∷ cs) =
    if c.ts == s.ts
    then record c { rx = c.rx + s.rx; tx = c.tx + s.tx } ∷ cs
    else c ∷ add_sample s cs

pub add_history : List Sample → List Sample → List Sample
unfolding add_sample
add_history [] cs = cs
add_history (s ∷ ss) cs = add_history ss (add_sample s cs)

pub add_interfaces : List (List Sample) → List Sample → List Sample
unfolding add_history
add_interfaces [] cs = cs
add_interfaces (h ∷ hs) cs = add_interfaces hs (add_history h cs)

-- `a[0] - b[0] > 0`
abbrev pub later : Sample → Sample → Bool
later a b = ltb b.ts a.ts

unfoldable pub merge_interface_history : List (List Sample) → List Sample
unfolding add_interfaces sort
merge_interface_history interfaces = sort later (add_interfaces interfaces [])

-- `src[i - 1] * 0.25 + src[i] * 0.5 + src[i + 1] * 0.25`, times four, from the second point on; the
-- last one stays.
pub smooth_from : ℕ → ℕ → List ℕ → List ℕ
smooth_from a b [] = 4 * b ∷ []
smooth_from a b (c ∷ cs) = (a + 2 * b + c) ∷ smooth_from b c cs

-- one pass, times four
abbrev pub smooth_pass : List ℕ → List ℕ
smooth_pass [] = []
smooth_pass (a ∷ []) = 4 * a ∷ []
smooth_pass (a ∷ b ∷ cs) = 4 * a ∷ smooth_from a b cs

smooth_passes_from : ℕ → List ℕ → List ℕ
unfolding smooth_from
smooth_passes_from zero values = values
smooth_passes_from (suc p) values = smooth_passes_from p (smooth_pass values)

-- The smoothed values, and the power of four by which they are multiplied. `passes || 1` is 1 for 0.
pub record Smoothed : Type 0 where
  pub values : List ℕ
  pub fours : ℕ

unfoldable pub smooth_series : List ℕ → ℕ → Smoothed
unfolding smooth_passes_from
smooth_series values passes =
    let p = if passes == 0 then 1 else passes in
    if ltb (length values) 3
    then record { values = values; fours = 0 }
    else record { values = smooth_passes_from p values; fours = p }

-- `smoothPasses`: the pixels for each sample, `widthPx / max(1, n - 1)`, are compared with 8 and 4.
unfoldable pub smooth_count : (n width : ℕ) → ℕ
smooth_count n width =
    let gaps = max 1 (n - 1) in
    if leb (8 * gaps) width then 0 else if leb (4 * gaps) width then 1 else 2

-- A point of the canvas, and a difference of two coordinates.
pub record Dot : Type 0 where
  pub x : ℕ
  pub y : ℕ

pub record Difference : Type 0 where
  pub plus : ℕ
  pub minus : ℕ

-- A call of `bezierCurveTo`, from the point where the pen stands. The control points are times six.
pub record Curve : Type 0 where
  pub from : Dot
  pub cp1x : Difference
  pub cp1y : ℕ
  pub cp2x : Difference
  pub cp2y : ℕ
  pub to : Dot

-- `clampY` of `(v - minus)`, all times six. A difference that stops at 0 is clamped all the same.
abbrev pub clamp : ℕ → ℕ → ℕ → ℕ
clamp lo hi v = if ltb v lo then lo else if ltb hi v then hi else v

abbrev pub curve : Dot → Dot → Dot → Dot → Curve
curve p0 p1 p2 p3 =
    let lo = 6 * min p1.y p2.y in
    let hi = 6 * max p1.y p2.y in
    record {
      from = p1;
      cp1x = record { plus = 6 * p1.x + p2.x; minus = p0.x };
      cp1y = clamp lo hi (6 * p1.y + p2.y - p0.y);
      cp2x = record { plus = 6 * p2.x + p1.x; minus = p3.x };
      cp2y = clamp lo hi (6 * p2.y + p1.y - p3.y);
      to = p2;
    }

abbrev pub head_or : Dot → List Dot → Dot
head_or p [] = p
head_or p (q ∷ qs) = q

-- the loop, at `p1` with `p0` before it
pub curves : Dot → Dot → List Dot → List Curve
curves p0 p1 [] = []
curves p0 p1 (p2 ∷ rest) = curve p0 p1 p2 (head_or p2 rest) ∷ curves p1 p2 rest

pub data Path2d : Type 0 where
  empty_path : Path2d
  line : Dot → Dot → Path2d
  smooth_path : Dot → List Curve → Path2d

unfoldable pub smooth_curve_path : List Dot → Path2d
unfolding curves
smooth_curve_path [] = empty_path
smooth_curve_path (p ∷ []) = empty_path
smooth_curve_path (p ∷ q ∷ []) = line p q
smooth_curve_path (p ∷ q ∷ r ∷ rest) = smooth_path p (curves p p (q ∷ r ∷ rest))
