-- ===== src/Attackers/Diff/Invariant.antt =====
-- What every refresh of the attackers' table preserves.
use tuxwall.Base.{
  ℕ, suc, ◌≡◌, refl, sym, ◌∙◌, String, Option, none, some, List, [], ◌∷◌, map, str_eq, Bool-cases,
  Option-cases, inl, inr, All, take,
}
use tuxwall.Base.Texts.{Distinct}
use tuxwall.Community.{Cached}
use tuxwall.Community.Lookup.{badge-in_flight}
use tuxwall.Attackers.{Attacker, Scene, Row}
use tuxwall.Attackers.Rows.{IsConsistent, Shows, build_row-Shows, update_row-Shows}
use tuxwall.Attackers.Diff.{
  Node, row, placeholder, rows, row_ips, ips, row_of, Table, step, last_entry, loop, diff_table,
}
use tuxwall.Attackers.Diff.Places.{shown}
use tuxwall.Attackers.Diff.Waits.{shown-ip}
use tuxwall.Attackers.Diff.Refresh.{sev_at, refreshed, rows-diff_table}

-- No address stands in two rows, each row shows the count that its attribute names, and no address
-- is being asked for twice.
pub record IsValid (t : Table) : Type 0 where
  pub distinct : Distinct (row_ips (rows t.nodes))
  pub consistent : All IsConsistent (rows t.nodes)
  pub in_flight : Distinct t.community.in_flight

row_of-IsConsistent :
    (ip : String) (ns : List Node) (r : Row)
    → All IsConsistent (rows ns)
    → row_of ip ns ≡ some r
    → IsConsistent r
row_of-IsConsistent ip [] r h k = cc
row_of-IsConsistent ip (placeholder ∷ ns) r h k = row_of-IsConsistent ip ns r h k
row_of-IsConsistent ip (row x ∷ ns) r h k = elim (Bool-cases (str_eq x.ip ip)) [
  | inl e ↦ let k' : some x ≡ some r = (rw e at k) in cc (h.0)
  | inr e ↦ row_of-IsConsistent ip ns r h.1 (rw e at k)
]

module _ (sc : Scene) (now_ms : ℕ) (cache : List Cached) (ns : List Node)
    (h : All IsConsistent (rows ns)) where
  -- The row for an entry shows the entry's count, its ban and the severity that is known.
  pub refreshed-Shows :
      (e : Attacker) → Shows sc (sev_at now_ms cache e.ip) e (refreshed sc now_ms cache ns e)
  refreshed-Shows e = go (row_of e.ip ns) refl
    where
      go :
          (o : Option Row)
          → row_of e.ip ns ≡ o
          → Shows sc (sev_at now_ms cache e.ip) e (shown sc (sev_at now_ms cache e.ip) e o)
      go none k = build_row-Shows sc _ e
      go (some r) k = update_row-Shows sc _ e r (row_of-IsConsistent e.ip ns r h k)

  All-IsConsistent : (es : List Attacker) → All IsConsistent (map (refreshed sc now_ms cache ns) es)
  All-IsConsistent [] = tt
  All-IsConsistent (e ∷ es) =
      let s = refreshed-Shows e in (s.hits ∙ sym s.count, All-IsConsistent es)

row_ips-refreshed :
    (sc : Scene) (now_ms : ℕ) (cache : List Cached) (ns : List Node) (es : List Attacker)
    → row_ips (map (refreshed sc now_ms cache ns) es) ≡ ips es
row_ips-refreshed sc now_ms cache ns [] = refl
row_ips-refreshed sc now_ms cache ns (e ∷ es) =
    λ i. shown-ip sc (sev_at now_ms cache e.ip) e ns i ∷ row_ips-refreshed sc now_ms cache ns es i

loop-in_flight :
    (sc : Scene) (now_ms : ℕ) (slice : List Attacker) (idx : ℕ) (es : List Attacker) (t : Table)
    → Distinct t.community.in_flight
    → Distinct (loop sc now_ms slice idx es t).community.in_flight
unfolding loop step
loop-in_flight sc now_ms slice idx [] t h = h
loop-in_flight sc now_ms slice idx (e ∷ es) t h = elim (Option-cases (last_entry slice e.ip)) [
  | inl k ↦ rw (k, loop) (loop-in_flight sc now_ms slice (suc idx) es t h)
  | inr (x, k) ↦
      rw (k, loop)
        (loop-in_flight sc now_ms slice (suc idx) es (step sc now_ms idx x t)
          (badge-in_flight now_ms x.ip t.community h))
]

-- A refresh with entries that have distinct addresses keeps the table valid.
pub diff_table-IsValid :
    (sc : Scene) (now_ms : ℕ) (entries : List Attacker) (limit : ℕ) (t : Table)
    → Distinct (ips (take limit entries))
    → IsValid t
    → IsValid (diff_table sc now_ms entries limit t)
diff_table-IsValid sc now_ms entries limit t d v =
    let slice = take limit entries in
    let same = rows-diff_table sc now_ms entries limit t d v.distinct in
    record {
      distinct = rw (same, row_ips-refreshed) d;
      consistent =
          rw same (All-IsConsistent sc now_ms t.community.cache t.nodes v.consistent slice);
      in_flight = unfold diff_table in loop-in_flight sc now_ms slice 0 slice _ v.in_flight;
    }
