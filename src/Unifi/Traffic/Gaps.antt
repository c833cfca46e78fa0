-- ===== src/Unifi/Traffic/Gaps.antt =====
-- The pieces of a line against the values that there are.
use mathlib.Core.List.{append_assoc}
use tuxwall.Base.{
  ℕ, suc, ◌+◌, ◌≤◌, ◌≡◌, refl, sym, ap, ◌∙◌, true, false, Option, none, some, List, [], ◌∷◌, ◌++◌,
  length, append_nil, arith,
}
use tuxwall.Unifi.Traffic.{Point, segments_from, segments}

-- The values that there are, in their order.
pub present : ℕ → List (Option ℕ) → List Point
present i [] = []
present i (none ∷ bs) = present (suc i) bs
present i (some v ∷ bs) = record { index = i; value = v } ∷ present (suc i) bs

abbrev pub concat : List (List Point) → List Point
concat [] = []
concat (ps ∷ pss) = ps ++ concat pss

-- Points at one index after the other, from `i` on.
abbrev pub IsSteps : ℕ → List Point → Type 0
IsSteps i [] = Unit
IsSteps i (p ∷ ps) = (p.index ≡ i) × IsSteps (suc i) ps

-- Pieces that are not empty, each of neighbouring points, the first of them at `low` or later, and
-- each later one with an index left out before it.
abbrev pub IsApart : ℕ → List (List Point) → Type 0
IsApart low [] = Unit
IsApart low ([] ∷ pss) = true ≡ false
IsApart low ((p ∷ ps) ∷ pss) =
    (low ≤ p.index) × IsSteps p.index (p ∷ ps) × IsApart (p.index + length (p ∷ ps) + 1) pss

-- The piece at hand when index `i` is next.
abbrev IsCurrent : ℕ → ℕ → List Point → Type 0
IsCurrent low i [] = low ≤ i
IsCurrent low i (p ∷ ps) =
    (low ≤ p.index) × IsSteps p.index (p ∷ ps) × (p.index + length (p ∷ ps) ≡ i)

IsSteps-snoc :
    (k i v : ℕ) (ps : List Point)
    → IsSteps k ps
    → k + length ps ≡ i
    → IsSteps k (ps ++ record { index = i; value = v } ∷ [])
IsSteps-snoc k i v [] h e = (ground (arith, e), tt)
IsSteps-snoc k i v (p ∷ ps) h e = (h.0, IsSteps-snoc (suc k) i v ps h.1 (ground (arith, e)))

length-snoc : (ps : List Point) (p : Point) → length (ps ++ p ∷ []) ≡ suc (length ps)
length-snoc [] p = refl
length-snoc (q ∷ ps) p = ap suc (length-snoc ps p)

IsCurrent-snoc :
    (low i v : ℕ) (cur : List Point)
    → IsCurrent low i cur
    → IsCurrent low (suc i) (cur ++ record { index = i; value = v } ∷ [])
IsCurrent-snoc low i v [] h = (h, (refl, tt), omega arith)
IsCurrent-snoc low i v (p ∷ ps) h =
    let q : Point = record { index = i; value = v } in
    (h.0, IsSteps-snoc p.index i v (p ∷ ps) h.1 h.2, ground (arith, h.2, length-snoc (p ∷ ps) q))

segments_from-out :
    (i : ℕ) (bs : List (Option ℕ)) (out : List (List Point)) (cur : List Point)
    → segments_from i bs out cur ≡ out ++ segments_from i bs [] cur
unfolding segments_from
segments_from-out i [] out [] = sym (append_nil out)
segments_from-out i [] out (p ∷ ps) = refl
segments_from-out i (none ∷ bs) out [] = segments_from-out (suc i) bs out []
segments_from-out i (none ∷ bs) out (p ∷ ps) =
    segments_from-out (suc i) bs (out ++ (p ∷ ps) ∷ []) []
    ∙ append_assoc out ((p ∷ ps) ∷ []) (segments_from (suc i) bs [] [])
    ∙ ap (out ++◌) (sym (segments_from-out (suc i) bs ((p ∷ ps) ∷ []) []))
segments_from-out i (some v ∷ bs) out cur =
    segments_from-out (suc i) bs out (cur ++ record { index = i; value = v } ∷ [])

segments_from-IsApart :
    (i low : ℕ) (bs : List (Option ℕ)) (cur : List Point)
    → IsCurrent low i cur
    → IsApart low (segments_from i bs [] cur)
unfolding segments_from
segments_from-IsApart i low [] [] h = tt
segments_from-IsApart i low [] (p ∷ ps) h = (h.0, h.1, tt)
segments_from-IsApart i low (none ∷ bs) [] h =
    segments_from-IsApart (suc i) low bs [] (omega (arith, h))
segments_from-IsApart i low (none ∷ bs) (p ∷ ps) h =
    rw (segments_from-out (suc i) bs ((p ∷ ps) ∷ []) []) (
      h.0,
      h.1,
      segments_from-IsApart (suc i) (p.index + length (p ∷ ps) + 1) bs [] (ground (arith, h.2)),
    )
segments_from-IsApart i low (some v ∷ bs) cur h =
    segments_from-IsApart (suc i) low bs (cur ++ record { index = i; value = v } ∷ [])
      (IsCurrent-snoc low i v cur h)

concat-segments_from :
    (i : ℕ) (bs : List (Option ℕ)) (cur : List Point)
    → concat (segments_from i bs [] cur) ≡ cur ++ present i bs
unfolding segments_from present
concat-segments_from i [] [] = refl
concat-segments_from i [] (p ∷ ps) = refl
concat-segments_from i (none ∷ bs) [] = concat-segments_from (suc i) bs []
concat-segments_from i (none ∷ bs) (p ∷ ps) =
    ap concat (segments_from-out (suc i) bs ((p ∷ ps) ∷ []) [])
    ∙ ap ((p ∷ ps) ++◌) (concat-segments_from (suc i) bs [])
concat-segments_from i (some v ∷ bs) cur =
    let q : Point = record { index = i; value = v } in
    concat-segments_from (suc i) bs (cur ++ q ∷ []) ∙ append_assoc cur (q ∷ []) (present (suc i) bs)

-- The pieces of a line have every value that there is, once and in its order. No piece is empty, the
-- points of one are at neighbouring indices, and between two pieces a value is missing.
pub segments-IsApart :
    (buckets : List (Option ℕ))
    → (concat (segments buckets) ≡ present 0 buckets) × IsApart 0 (segments buckets)
unfolding segments
segments-IsApart buckets =
    (concat-segments_from 0 buckets [], segments_from-IsApart 0 0 buckets [] (omega arith))
