-- ===== src/Posture/Ranking.antt =====
-- The ranking of the scenarios by their decisions.
use tuxwall.Base.{
  ℕ, ◌+◌, ◌≤◌, ◌≡◌, refl, min, max, String, Bool, false, List, [], ◌∷◌, str_eq, eq_iff, arith,
  if-elim, All, if◌then◌else◌,
}
use tuxwall.Base.Sort.{IsSorted, sort, insert, sort-IsSorted}
use tuxwall.Tools.{NameCount, count_name, or_text}
use tuxwall.Posture.{Decision, tally, fewer, ranked}

-- The decisions of a scenario, counted one by one.
abbrev pub scenario_of : Decision → String
scenario_of d = or_text d.scenario "unknown"

abbrev pub one_if : Bool → ℕ
one_if b = if b then 1 else 0

abbrev pub decisions_of : String → List Decision → ℕ
decisions_of nm [] = 0
decisions_of nm (d ∷ ds) = one_if (str_eq (scenario_of d) nm) + decisions_of nm ds

-- How many entries there are for a name, and their counts together.
abbrev pub entries_of : String → List NameCount → ℕ
entries_of nm [] = 0
entries_of nm (c ∷ cs) = one_if (str_eq c.name nm) + entries_of nm cs

abbrev pub counts_of : String → List NameCount → ℕ
counts_of nm [] = 0
counts_of nm (c ∷ cs) = (if str_eq c.name nm then c.n else 0) + counts_of nm cs

-- No entry stands before one that counts more.
abbrev pub IsDescending : List NameCount → Type 0
IsDescending [] = Unit
IsDescending (c ∷ cs) = All (λ d. d.n ≤ c.n) cs × IsDescending cs

-- A list with one entry for each scenario of the decisions, its count that of them, the largest first.
abbrev pub IsRanking : List Decision → List NameCount → Type 0
IsRanking ds cs =
    IsDescending cs
    × ((nm : String)
        → (entries_of nm cs ≡ min 1 (decisions_of nm ds)) × (counts_of nm cs ≡ decisions_of nm ds))

entries-count_name :
    (nm k : String) (cs : List NameCount)
    → entries_of nm (count_name k cs)
      ≡ (if str_eq k nm then max 1 (entries_of nm cs) else entries_of nm cs)
entries-count_name nm k [] = ground arith
entries-count_name nm k (c ∷ cs) =
    if-elim
      (λ l.
        entries_of nm l
        ≡ (if str_eq k nm then max 1 (entries_of nm (c ∷ cs)) else entries_of nm (c ∷ cs)))
      (str_eq c.name k) (record c { n = c.n + 1 } ∷ cs) (c ∷ count_name k cs)
      (λ e. ground (arith, e, eq_iff c.name k, eq_iff k nm, eq_iff c.name nm))
      (λ e.
        ground
          (arith, e, eq_iff c.name k, eq_iff k nm, eq_iff c.name nm, entries-count_name nm k cs))

counts-count_name :
    (nm k : String) (cs : List NameCount)
    → counts_of nm (count_name k cs) ≡ one_if (str_eq k nm) + counts_of nm cs
counts-count_name nm k [] = ground arith
counts-count_name nm k (c ∷ cs) = ground (arith, eq_iff c.name k, counts-count_name nm k cs)

entries-tally :
    (nm : String) (ds : List Decision) (cs : List NameCount)
    → entries_of nm (tally ds cs) ≡ max (entries_of nm cs) (min 1 (decisions_of nm ds))
unfolding tally
entries-tally nm [] cs = omega arith
entries-tally nm (d ∷ ds) cs =
    let k = scenario_of d in
    ground (arith, entries-tally nm ds (count_name k cs), entries-count_name nm k cs)

counts-tally :
    (nm : String) (ds : List Decision) (cs : List NameCount)
    → counts_of nm (tally ds cs) ≡ decisions_of nm ds + counts_of nm cs
unfolding tally
counts-tally nm [] cs = omega arith
counts-tally nm (d ∷ ds) cs =
    let k = scenario_of d in
    omega (arith, counts-tally nm ds (count_name k cs), counts-count_name nm k cs)

module _ (nm : String) where
  entries-insert :
      (c : NameCount) (cs : List NameCount)
      → entries_of nm (insert fewer c cs) ≡ entries_of nm (c ∷ cs)
  unfolding insert
  entries-insert c [] = refl
  entries-insert c (d ∷ cs) = ground (arith, entries-insert c cs)

  entries-sort : (cs : List NameCount) → entries_of nm (sort fewer cs) ≡ entries_of nm cs
  unfolding sort
  entries-sort [] = refl
  entries-sort (c ∷ cs) = omega (arith, entries-insert c (sort fewer cs), entries-sort cs)

  counts-insert :
      (c : NameCount) (cs : List NameCount)
      → counts_of nm (insert fewer c cs) ≡ counts_of nm (c ∷ cs)
  unfolding insert
  counts-insert c [] = refl
  counts-insert c (d ∷ cs) = ground (arith, counts-insert c cs)

  counts-sort : (cs : List NameCount) → counts_of nm (sort fewer cs) ≡ counts_of nm cs
  unfolding sort
  counts-sort [] = refl
  counts-sort (c ∷ cs) = omega (arith, counts-insert c (sort fewer cs), counts-sort cs)

All-le :
    (c : NameCount) (cs : List NameCount)
    → All (λ d. fewer c d ≡ false) cs
    → All (λ d. d.n ≤ c.n) cs
All-le c [] h = tt
All-le c (d ∷ cs) h = (ground (arith, h.0), All-le c cs h.1)

sorted-IsDescending : (cs : List NameCount) → IsSorted fewer cs → IsDescending cs
sorted-IsDescending [] h = tt
sorted-IsDescending (c ∷ cs) h = (All-le c cs h.0, sorted-IsDescending cs h.1)

pub ranked-IsRanking : (ds : List Decision) → IsRanking ds (ranked ds)
unfolding ranked
ranked-IsRanking ds = (
  sorted-IsDescending (ranked ds)
      (sort-IsSorted fewer (λ x y h. ground arith) (λ x y z h k. ground arith) (tally ds [])),
  λ nm. (
    omega (arith, entries-sort nm (tally ds []), entries-tally nm ds []),
    omega (arith, counts-sort nm (tally ds []), counts-tally nm ds []),
  ),
)
