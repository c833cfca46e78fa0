-- ===== src/Posture/Bans.antt =====
-- The bar of the bans against the decisions.
use tuxwall.Base.{
  ℕ, zero, suc, ◌+◌, ◌≡◌, refl, sym, String, Bool, ◌||◌, Option, none, some, List, [], ◌∷◌, length,
  take, drop, ◌==◌, arith, if-elim,
}
use mathlib.Core.Path.{subst}
use tuxwall.Base.Sort.{sort, insert}
use tuxwall.Tools.{NameCount, count_name, or_text}
use tuxwall.Posture.Ranking.{IsRanking, ranked-IsRanking}
use tuxwall.Posture.{
  Decision, Posture, start, Round, set_exposed, set_dmz, set_bans, set_backups, set_failed,
  refresh_ov_posture, or_zero, tally, fewer, ranked, sum_counts, Split, bans_card, run,
}

-- The count of bans is that of the decisions which are kept with it.
abbrev pub IsCounted : Posture → Type 0
IsCounted s = or_zero s.bans ≡ length s.decisions

set_bans-IsCounted :
    (o : Option (List Decision)) (s : Posture) → IsCounted s → IsCounted (set_bans o s)
set_bans-IsCounted none s h = h
set_bans-IsCounted (some ds) s h = refl

set_exposed-IsCounted :
    (o : Option (List Bool)) (s : Posture) → IsCounted s → IsCounted (set_exposed o s)
set_exposed-IsCounted none s h = h
set_exposed-IsCounted (some rules) s h = h

set_dmz-IsCounted : (o : Option ℕ) (s : Posture) → IsCounted s → IsCounted (set_dmz o s)
set_dmz-IsCounted none s h = h
set_dmz-IsCounted (some n) s h = h

set_backups-IsCounted :
    (now : ℕ) (o : Option (List ℕ)) (s : Posture) → IsCounted s → IsCounted (set_backups now o s)
set_backups-IsCounted now none s h = h
set_backups-IsCounted now (some list) s h = h

set_failed-IsCounted :
    (o : Option (List String)) (s : Posture) → IsCounted s → IsCounted (set_failed o s)
set_failed-IsCounted none s h = h
set_failed-IsCounted (some states) s h = h

refresh-IsCounted :
    (now : ℕ) (r : Round) (s : Posture) → IsCounted s → IsCounted (refresh_ov_posture now r s)
unfolding refresh_ov_posture
refresh-IsCounted now r s h = set_failed-IsCounted r.services _ (
    set_backups-IsCounted now r.backups _ (
      set_bans-IsCounted r.crowdsec _
        (set_dmz-IsCounted r.dmz _ (set_exposed-IsCounted r.forwards _ h))))

run_from-IsCounted : (rs : List (ℕ × Round)) (s : Posture) → IsCounted s → IsCounted (run rs s)
unfolding run
run_from-IsCounted [] s h = h
run_from-IsCounted ((now, r) ∷ rs) s h =
    run_from-IsCounted rs (refresh_ov_posture now r s) (refresh-IsCounted now r s h)

sum-count_name :
    (nm : String) (cs : List NameCount) → sum_counts (count_name nm cs) ≡ sum_counts cs + 1
sum-count_name nm [] = omega arith
sum-count_name nm (c ∷ cs) = ground (arith, sum-count_name nm cs)

sum-tally :
    (ds : List Decision) (cs : List NameCount)
    → sum_counts (tally ds cs) ≡ sum_counts cs + length ds
unfolding tally
sum-tally [] cs = omega arith
sum-tally (d ∷ ds) cs =
    let nm = or_text d.scenario "unknown" in
    omega (arith, sum-tally ds (count_name nm cs), sum-count_name nm cs)

sum-insert :
    (c : NameCount) (cs : List NameCount) → sum_counts (insert fewer c cs) ≡ c.n + sum_counts cs
unfolding insert
sum-insert c [] = refl
sum-insert c (d ∷ cs) = ground (arith, sum-insert c cs)

sum-sort : (cs : List NameCount) → sum_counts (sort fewer cs) ≡ sum_counts cs
unfolding sort
sum-sort [] = refl
sum-sort (c ∷ cs) = ground (arith, sum-insert c (sort fewer cs), sum-sort cs)

sum-ranked : (ds : List Decision) → sum_counts (ranked ds) ≡ length ds
unfolding ranked
sum-ranked ds = omega (arith, sum-sort (tally ds []), sum-tally ds [])

sum-split :
    (n : ℕ) (cs : List NameCount) → sum_counts (take n cs) + sum_counts (drop n cs) ≡ sum_counts cs
sum-split zero cs = omega arith
sum-split (suc n) [] = omega arith
sum-split (suc n) (c ∷ cs) = omega (arith, sum-split n cs)

-- A bar for so many decisions whose pieces are, in their order, the first three scenarios of a ranking
-- of them, and all the others.
abbrev pub IsSplit : ℕ → List NameCount → Option Split → Type 0
IsSplit n cs none = n ≡ 0
IsSplit n cs (some s) =
    (s.top ≡ take 3 cs) × (s.other ≡ sum_counts (drop 3 cs)) × (sum_counts s.top + s.other ≡ n)

no_top : (cs : List NameCount) → length (take 3 cs) ≡ 0 → sum_counts cs ≡ 0
no_top [] e = refl
no_top (c ∷ cs) e = ground (arith, e)

bans_card-IsSplit :
    (ds : List Decision) → IsSplit (length ds) (ranked ds) (bans_card (length ds) ds).bar
unfolding bans_card
bans_card-IsSplit ds =
    let n = length ds in
    let cs = ranked ds in
    let parts = sum-split 3 cs in
    if-elim (IsSplit n cs) (n == 0 || length (take 3 cs) == 0) none _
      (λ e. ground (arith, e, sum-ranked ds, no_top cs))
      (λ e. (refl, omega (arith, sum-ranked ds, parts), omega (arith, sum-ranked ds, parts)))

-- After any rounds of requests, whichever of them failed: the number of bans is that of the decisions
-- shown with it; the code's ranking has one entry for each scenario of these decisions, with the number
-- of its decisions, and none stands before one with more; the bar's pieces are its first three entries
-- and all the others, and together they are the whole bar, which is left out only where there is no
-- decision.
pub run-IsSplit :
    (rs : List (ℕ × Round))
    → IsCounted (run rs start)
      × IsRanking (run rs start).decisions (ranked (run rs start).decisions)
      × IsSplit
          (length (run rs start).decisions)
          (ranked (run rs start).decisions)
          (bans_card (or_zero (run rs start).bans) (run rs start).decisions).bar
run-IsSplit rs =
    let s = run rs start in
    let h = run_from-IsCounted rs start refl in
    (
      h,
      ranked-IsRanking s.decisions,
      subst (λ n. IsSplit (length s.decisions) (ranked s.decisions) (bans_card n s.decisions).bar)
          (sym h) (bans_card-IsSplit s.decisions),
    )
