-- ===== src/Attackers/Diff/Refresh.antt =====
-- What one refresh leaves on the page.
use tuxwall.Base.{
  ℕ, suc, ◌≡◌, refl, ap, sym, ◌∙◌, String, true, false, some, List, [], ◌∷◌, ◌++◌, map, str_eq,
  arith, length, All, All-imp, All-both, map-eq_of_All, length-append, or-eq-false, take,
}
use tuxwall.Base.Texts.{contains, str_eq_refl, str_eq_comm, Distinct}
use tuxwall.Community.{Cached, Community, fresh, cached_for, badge}
use tuxwall.Community.Lookup.{sev_of, badge-sev, badge-cache}
use tuxwall.Attackers.{Attacker, Scene, Row}
use tuxwall.Attackers.Diff.{
  Node, row, rows, row_ips, ips, row_of, place, last_entry, remove_gone, Table, step, loop,
  diff_table,
}
use tuxwall.Attackers.Diff.Waits.{
  row_of-without, without-waits, Distinct-without, shown-ip, row_of-remove_gone,
  Distinct-remove_gone, remove_gone-waits, rows-drop_if_filled, rows-append, last_entry_self,
}
use tuxwall.Attackers.Diff.Places.{without, shown, place-append}

-- The row for an entry, given the children before the refresh and the answers of tuxwall.org.
abbrev pub sev_at : ℕ → List Cached → String → String
sev_at now_ms cache ip = sev_of (fresh now_ms (cached_for ip cache))

abbrev pub refreshed : Scene → ℕ → List Cached → List Node → Attacker → Row
refreshed sc now_ms cache ns e = shown sc (sev_at now_ms cache e.ip) e (row_of e.ip ns)

snoc :
    (done : List Row) (r : Row) (ns : List Node)
    → map row (done ++ r ∷ []) ++ ns ≡ map row done ++ row r ∷ ns
snoc [] r ns = refl
snoc (x ∷ xs) r ns = ap (row x ∷◌) (snoc xs r ns)

snoc_assoc : (done : List Row) (r : Row) (rs : List Row) → (done ++ r ∷ []) ++ rs ≡ done ++ r ∷ rs
snoc_assoc [] r rs = refl
snoc_assoc (x ∷ xs) r rs = ap (x ∷◌) (snoc_assoc xs r rs)

not-contains-snoc :
    (done : List Row) (r : Row) (ip : String)
    → contains (row_ips done) ip ≡ false
    → str_eq r.ip ip ≡ false
    → contains (row_ips (done ++ r ∷ [])) ip ≡ false
not-contains-snoc [] r ip h k = rw k
not-contains-snoc (x ∷ xs) r ip h k =
    let (a, b) = or-eq-false (str_eq x.ip ip) _ h in rw a (not-contains-snoc xs r ip b k)

ne-each :
    (ip : String) (es : List Attacker)
    → contains (ips es) ip ≡ false
    → All (λ e. str_eq ip e.ip ≡ false) es
ne-each ip [] h = tt
ne-each ip (e ∷ es) h =
    let (a, b) = or-eq-false (str_eq e.ip ip) _ h in (str_eq_comm ip e.ip ∙ a, ne-each ip es b)

-- no row is left when no entry is
rows-none : (rs : List Row) → All (λ r. contains [] r.ip ≡ true) rs → rs ≡ []
rows-none [] h = refl
rows-none (r ∷ rs) h = cc (h.0)

module _ (sc : Scene) (now_ms : ℕ) (slice : List Attacker) (cache : List Cached) where
  loop-cons :
      (e : Attacker) (es : List Attacker) (idx : ℕ) (t : Table)
      → last_entry slice e.ip ≡ some e
      → loop sc now_ms slice idx (e ∷ es) t
        ≡ loop sc now_ms slice (suc idx) es (step sc now_ms idx e t)
  unfolding loop
  loop-cons e es idx t h = rw (h, loop)

  step-eq :
      (e : Attacker) (idx : ℕ) (done : List Row) (rest : List Node) (c : Community)
      → idx ≡ length done
      → c.cache ≡ cache
      → contains (row_ips done) e.ip ≡ false
      → step sc now_ms idx e (record { nodes = map row done ++ rest; community = c }) ≡ record {
        nodes = map row (done ++ refreshed sc now_ms cache rest e ∷ []) ++ without e.ip rest;
        community = (badge now_ms e.ip c).after;
      }
  unfolding step
  step-eq e idx done rest c at same h =
      let ns = map row done ++ rest in
      let sev =
        badge-sev now_ms e.ip c ∙ ap (λ k. sev_of (fresh now_ms (cached_for e.ip k))) same in
      let nodes =
        ap (λ v. place sc v idx e ns) sev
        ∙ ap (λ k. place sc (sev_at now_ms cache e.ip) k e ns) at
        ∙ place-append sc (sev_at now_ms cache e.ip) e done rest h
        ∙ sym (snoc done (refreshed sc now_ms cache rest e) (without e.ip rest)) in
      λ i. record { nodes = nodes i; community = (badge now_ms e.ip c).after }

  rest-same :
      (ip : String) (rest : List Node) (es : List Attacker)
      → contains (ips es) ip ≡ false
      → map (refreshed sc now_ms cache (without ip rest)) es
        ≡ map (refreshed sc now_ms cache rest) es
  rest-same ip rest es h = map-eq_of_All _ _ es (
      All-imp _ _
        (λ e ne. ap (shown sc (sev_at now_ms cache e.ip) e) (row_of-without ip e.ip rest ne)) es
        (ne-each ip es h))

  fresh-snoc :
      (done : List Row) (r : Row) (ip : String) (es : List Attacker)
      → r.ip ≡ ip
      → contains (ips es) ip ≡ false
      → All (λ e. contains (row_ips done) e.ip ≡ false) es
      → All (λ e. contains (row_ips (done ++ r ∷ [])) e.ip ≡ false) es
  fresh-snoc done r ip es same h k =
      All-imp (λ e. (contains (row_ips done) e.ip ≡ false) × (str_eq ip e.ip ≡ false))
        (λ e. contains (row_ips (done ++ r ∷ [])) e.ip ≡ false)
        (λ e both. not-contains-snoc done r e.ip both.0 (ap (λ s. str_eq s e.ip) same ∙ both.1)) es
        (All-both _ _ es k (ne-each ip es h))

  loop-rows :
      (es : List Attacker) (idx : ℕ) (done : List Row) (rest : List Node) (c : Community)
      → idx ≡ length done
      → c.cache ≡ cache
      → All (λ e. last_entry slice e.ip ≡ some e) es
      → Distinct (ips es)
      → All (λ e. contains (row_ips done) e.ip ≡ false) es
      → Distinct (row_ips (rows rest))
      → All (λ r. contains (ips es) r.ip ≡ true) (rows rest)
      → rows
          (loop sc now_ms slice idx es
            (record { nodes = map row done ++ rest; community = c })).nodes
        ≡ done ++ map (refreshed sc now_ms cache rest) es
  unfolding loop
  loop-rows [] idx done rest c at same known d new dr waits =
      rows-append done rest ∙ ap (done ++◌) (rows-none (rows rest) waits)
  loop-rows (e ∷ es) idx done rest c at same known d new dr waits =
      let r = refreshed sc now_ms cache rest e in
      let ih =
        loop-rows es (suc idx) (done ++ r ∷ []) (without e.ip rest) (badge now_ms e.ip c).after
          (omega (arith, length-append done (r ∷ []))) (badge-cache now_ms e.ip c ∙ same) known.1
          d.1 (fresh-snoc done r e.ip es (shown-ip sc _ e rest) d.0 new.1)
          (Distinct-without e.ip rest dr) (without-waits e.ip (ips es) rest dr waits) in
      ap (λ t. rows t.nodes) (loop-cons e es idx _ known.0)
      ∙ ap (λ t. rows (loop sc now_ms slice (suc idx) es t).nodes)
          (step-eq e idx done rest c at same new.0)
      ∙ ih
      ∙ snoc_assoc done r _
      ∙ ap (λ l. done ++ r ∷ l) (rest-same e.ip rest es d.0)

no-row-new : (es : List Attacker) → All (λ e. contains (row_ips []) e.ip ≡ false) es
no-row-new [] = tt
no-row-new (e ∷ es) = (refl, no-row-new es)

remove_gone-same :
    (sc : Scene) (now_ms : ℕ) (cache : List Cached) (ns : List Node) (new : List String)
    (es : List Attacker)
    → All (λ e. contains new e.ip ≡ true) es
    → map (refreshed sc now_ms cache (remove_gone new ns)) es
      ≡ map (refreshed sc now_ms cache ns) es
remove_gone-same sc now_ms cache ns new es h = map-eq_of_All _ _ es (
    All-imp _ _
      (λ e k. ap (shown sc (sev_at now_ms cache e.ip) e) (row_of-remove_gone new e.ip ns k)) es h)

contains_self : (es : List Attacker) → All (λ e. contains (ips es) e.ip ≡ true) es
contains_self [] = tt
contains_self (e ∷ es) =
    (rw (str_eq_refl e.ip), All-imp _ _ (λ x h. ground (arith, h)) es (contains_self es))

-- If no address is listed twice and none stands in the table twice, then after a refresh the table
-- has one row for each of the first `limit` entries, in the order of the entries: the row that was
-- there for the address, brought up to date, or else a new one.
pub rows-diff_table :
    (sc : Scene) (now_ms : ℕ) (entries : List Attacker) (limit : ℕ) (t : Table)
    → Distinct (ips (take limit entries))
    → Distinct (row_ips (rows t.nodes))
    → rows (diff_table sc now_ms entries limit t).nodes
      ≡ map (refreshed sc now_ms t.community.cache t.nodes) (take limit entries)
unfolding diff_table
rows-diff_table sc now_ms entries limit t d dr =
    let slice = take limit entries in
    let kept = remove_gone (ips slice) t.nodes in
    rows-drop_if_filled slice _
    ∙ loop-rows sc now_ms slice t.community.cache slice 0 [] kept t.community refl refl
        (last_entry_self slice d) d (no-row-new slice) (Distinct-remove_gone (ips slice) t.nodes dr)
        (remove_gone-waits (ips slice) t.nodes)
    ∙ remove_gone-same sc now_ms t.community.cache t.nodes (ips slice) slice (contains_self slice)
