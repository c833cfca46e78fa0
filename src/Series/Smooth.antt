-- ===== src/Series/Smooth.antt =====
-- How far the smoothed series and curves reach.
use tuxwall.Base.{
  ℕ, zero, suc, ◌-◌, ◌*◌, ◌≤◌, ◌≡◌, refl, ap, ◌∙◌, List, [], ◌∷◌, ltb, leb, ◌==◌, length, min, max,
  if◌then◌else◌, if-elim, arith, All,
}
use tuxwall.Series.{
  smooth_from, smooth_pass, smooth_passes_from, smooth_series, smooth_count, Smoothed, Dot, Curve,
  clamp, curves, Path2d, empty_path, line, smooth_path, smooth_curve_path,
}

abbrev pub IsWithin : ℕ → ℕ → ℕ → Type 0
IsWithin lo hi v = (lo ≤ v) × (v ≤ hi)

module _ (lo hi : ℕ) where
  smooth_from-IsWithin :
      (a b : ℕ) (cs : List ℕ)
      → IsWithin lo hi a
      → IsWithin lo hi b
      → All (IsWithin lo hi) cs
      → All (IsWithin (4 * lo) (4 * hi)) (smooth_from a b cs)
  unfolding smooth_from
  smooth_from-IsWithin a b [] ha hb h = (omega (arith, hb), tt)
  smooth_from-IsWithin a b (c ∷ cs) ha hb h =
      (omega (arith, ha, hb, h.0), smooth_from-IsWithin b c cs hb h.0 h.1)

  smooth_pass-IsWithin :
      (values : List ℕ)
      → All (IsWithin lo hi) values
      → All (IsWithin (4 * lo) (4 * hi)) (smooth_pass values)
  smooth_pass-IsWithin [] h = tt
  smooth_pass-IsWithin (a ∷ []) h = (omega (arith, h.0), tt)
  smooth_pass-IsWithin (a ∷ b ∷ cs) h =
      (omega (arith, h.0), smooth_from-IsWithin a b cs h.0 h.1.0 h.1.1)

-- `v` times four, `p` times over
abbrev pub scaled : ℕ → ℕ → ℕ
scaled zero v = v
scaled (suc p) v = scaled p (4 * v)

smooth_passes-IsWithin :
    (p lo hi : ℕ) (values : List ℕ)
    → All (IsWithin lo hi) values
    → All (IsWithin (scaled p lo) (scaled p hi)) (smooth_passes_from p values)
unfolding smooth_passes_from
smooth_passes-IsWithin zero lo hi values h = h
smooth_passes-IsWithin (suc p) lo hi values h =
    smooth_passes-IsWithin p (4 * lo) (4 * hi) (smooth_pass values)
      (smooth_pass-IsWithin lo hi values h)

length-smooth_from : (a b : ℕ) (cs : List ℕ) → length (smooth_from a b cs) ≡ suc (length cs)
unfolding smooth_from
length-smooth_from a b [] = refl
length-smooth_from a b (c ∷ cs) = ap suc (length-smooth_from b c cs)

length-smooth_pass : (values : List ℕ) → length (smooth_pass values) ≡ length values
length-smooth_pass [] = refl
length-smooth_pass (a ∷ []) = refl
length-smooth_pass (a ∷ b ∷ cs) = ap suc (length-smooth_from a b cs)

length-smooth_passes :
    (p : ℕ) (values : List ℕ) → length (smooth_passes_from p values) ≡ length values
unfolding smooth_passes_from
length-smooth_passes zero values = refl
length-smooth_passes (suc p) values =
    length-smooth_passes p (smooth_pass values) ∙ length-smooth_pass values

-- The smoothed series has a value for each raw one, and where the raw values lie between two bounds
-- the smoothed ones do.
pub smooth_series-IsWithin :
    (values : List ℕ) (passes lo hi : ℕ)
    → All (IsWithin lo hi) values
    → (length (smooth_series values passes).values ≡ length values)
      × All
          (IsWithin
            (scaled (smooth_series values passes).fours lo)
            (scaled (smooth_series values passes).fours hi))
          (smooth_series values passes).values
unfolding smooth_series
smooth_series-IsWithin values passes lo hi h =
    let p = if passes == 0 then 1 else passes in
    if-elim
      (λ (s : Smoothed).
        (length s.values ≡ length values)
        × All (IsWithin (scaled s.fours lo) (scaled s.fours hi)) s.values)
      (ltb (length values) 3) (record { values = values; fours = 0 })
      (record { values = smooth_passes_from p values; fours = p }) (λ e. (refl, h))
      (λ e. (length-smooth_passes p values, smooth_passes-IsWithin p lo hi values h))

-- A series of three values or more is smoothed by one pass or two: one where a gap is four pixels wide
-- or more, also where the count asked for is none.
pub smooth_series-fours :
    (values : List ℕ) (width : ℕ)
    → 3 ≤ length values
    → (smooth_series values (smooth_count (length values) width)).fours
      ≡ (if leb (4 * (length values - 1)) width then 1 else 2)
unfolding smooth_series smooth_count
smooth_series-fours values width h = ground (arith, h)

-- Both control points of a curve lie in height between the points that it joins.
abbrev pub IsInside : Curve → Type 0
IsInside c =
    IsWithin (6 * min c.from.y c.to.y) (6 * max c.from.y c.to.y) c.cp1y
    × IsWithin (6 * min c.from.y c.to.y) (6 * max c.from.y c.to.y) c.cp2y

-- Each curve begins where the one before ends, the first at `p`, and all of them reach `ps`.
abbrev pub Joins : Dot → List Dot → List Curve → Type 0
Joins p [] [] = Unit
Joins p [] (c ∷ cs) = ⊥
Joins p (q ∷ ps) [] = ⊥
Joins p (q ∷ ps) (c ∷ cs) = (c.from ≡ p) × (c.to ≡ q) × Joins q ps cs

clamp-IsWithin :
    (a b v : ℕ) → IsWithin (6 * min a b) (6 * max a b) (clamp (6 * min a b) (6 * max a b) v)
clamp-IsWithin a b v = ground arith

curves-IsInside : (p0 p1 : Dot) (ps : List Dot) → All IsInside (curves p0 p1 ps)
unfolding curves
curves-IsInside p0 p1 [] = tt
curves-IsInside p0 p1 (p2 ∷ ps) =
    ((clamp-IsWithin p1.y p2.y _, clamp-IsWithin p1.y p2.y _), curves-IsInside p1 p2 ps)

curves-Joins : (p0 p1 : Dot) (ps : List Dot) → Joins p1 ps (curves p0 p1 ps)
unfolding curves
curves-Joins p0 p1 [] = tt
curves-Joins p0 p1 (p2 ∷ ps) = (refl, refl, curves-Joins p1 p2 ps)

abbrev pub IsTraced : Dot → Dot → List Dot → Path2d → Type 0
IsTraced p q ps empty_path = ⊥
IsTraced p q ps (line a b) = (a ≡ p) × (b ≡ q) × (ps ≡ [])
IsTraced p q ps (smooth_path a cs) = (a ≡ p) × Joins p (q ∷ ps) cs × All IsInside cs

abbrev pub IsFaithful : List Dot → Path2d → Type 0
IsFaithful [] d = d ≡ empty_path
IsFaithful (p ∷ []) d = d ≡ empty_path
IsFaithful (p ∷ q ∷ ps) d = IsTraced p q ps d

-- The path goes through all points in their order, and in height the control points of each of its
-- curves lie between the two points that the curve joins.
pub smooth_curve_path-IsFaithful : (ps : List Dot) → IsFaithful ps (smooth_curve_path ps)
unfolding smooth_curve_path
smooth_curve_path-IsFaithful [] = refl
smooth_curve_path-IsFaithful (p ∷ []) = refl
smooth_curve_path-IsFaithful (p ∷ q ∷ []) = (refl, refl, refl)
smooth_curve_path-IsFaithful (p ∷ q ∷ r ∷ ps) =
    (refl, curves-Joins p p (q ∷ r ∷ ps), curves-IsInside p p (q ∷ r ∷ ps))
