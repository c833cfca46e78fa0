-- ===== src/Attackers/Diff/Waits.antt =====
-- The rows and the entries that are still to be put in order, while the refresh runs.
use tuxwall.Base.{
  ◌≡◌, refl, ap, ◌∙◌, String, true, false, Option, none, some, List, [], ◌∷◌, ◌++◌, map, str_eq,
  if◌then◌else◌, arith, Bool-cases, inl, inr, All, All-imp, or-eq-false, eq_iff,
}
use tuxwall.Base.Texts.{contains, str_eq_refl, str_eq_comm, Distinct}
use tuxwall.Attackers.{Attacker, Scene, Row, build_row}
use tuxwall.Attackers.Diff.{
  Node, row, placeholder, rows, row_ips, ips, row_of, last_entry, remove_gone, drop_placeholder,
  drop_if_filled,
}
use tuxwall.Attackers.Rows.{update_row-IsKept}
use tuxwall.Attackers.Diff.Places.{without, shown}

-- `row_of`, `without` and `keep` against one another.
row_of-ip : (ip : String) (ns : List Node) (r : Row) → row_of ip ns ≡ some r → r.ip ≡ ip
row_of-ip ip [] r h = cc
row_of-ip ip (placeholder ∷ ns) r h = row_of-ip ip ns r h
row_of-ip ip (row x ∷ ns) r h = elim (Bool-cases (str_eq x.ip ip)) [
  | inl e ↦ let h' : some x ≡ some r = (rw e at h) in cc ((eq_iff x.ip ip).0 e)
  | inr e ↦ row_of-ip ip ns r (rw e at h)
]

pub shown-ip :
    (sc : Scene) (sev : String) (e : Attacker) (ns : List Node)
    → (shown sc sev e (row_of e.ip ns)).ip ≡ e.ip
unfolding build_row
shown-ip sc sev e ns = go (row_of e.ip ns) refl
  where
    go : (o : Option Row) → row_of e.ip ns ≡ o → (shown sc sev e o).ip ≡ e.ip
    go none h = refl
    go (some r) h = (update_row-IsKept sc sev e r).ip ∙ row_of-ip e.ip ns r h

pub row_of-without :
    (ip other : String) (ns : List Node)
    → str_eq ip other ≡ false
    → row_of other (without ip ns) ≡ row_of other ns
row_of-without ip other [] h = refl
row_of-without ip other (placeholder ∷ ns) h = row_of-without ip other ns h
row_of-without ip other (row r ∷ ns) h = elim (Bool-cases (str_eq r.ip ip)) [
  | inl e ↦ let ne : str_eq r.ip other ≡ false = (rw ((eq_iff r.ip ip).0 e) h) in rw (e, ne)
  | inr e ↦ rw e (ap (λ o. if str_eq r.ip other then some r else o) (row_of-without ip other ns h))
]

contains-without :
    (ip other : String) (ns : List Node)
    → contains (row_ips (rows ns)) other ≡ false
    → contains (row_ips (rows (without ip ns))) other ≡ false
contains-without ip other [] h = refl
contains-without ip other (placeholder ∷ ns) h = contains-without ip other ns h
contains-without ip other (row r ∷ ns) h =
    let (a, b) = or-eq-false (str_eq r.ip other) _ h in
    elim (Bool-cases (str_eq r.ip ip)) [
      | inl e ↦ rw e b
      | inr e ↦ rw e (rw a (contains-without ip other ns b))
    ]

pub Distinct-without :
    (ip : String) (ns : List Node)
    → Distinct (row_ips (rows ns))
    → Distinct (row_ips (rows (without ip ns)))
Distinct-without ip [] h = tt
Distinct-without ip (placeholder ∷ ns) h = Distinct-without ip ns h
Distinct-without ip (row r ∷ ns) h = elim (Bool-cases (str_eq r.ip ip)) [
  | inl e ↦ rw e h.1
  | inr e ↦ rw e (contains-without ip r.ip ns h.0, Distinct-without ip ns h.1)
]

-- The other rows wait for the other entries.
waits-drop :
    (ip : String) (new : List String) (rs : List Row)
    → contains (row_ips rs) ip ≡ false
    → All (λ r. contains (ip ∷ new) r.ip ≡ true) rs
    → All (λ r. contains new r.ip ≡ true) rs
waits-drop ip new [] d h = tt
waits-drop ip new (r ∷ rs) d h =
    let (other, rest) = or-eq-false (str_eq r.ip ip) _ d in
    (ground (arith, str_eq_comm r.ip ip, h.0), waits-drop ip new rs rest h.1)

pub without-waits :
    (ip : String) (new : List String) (ns : List Node)
    → Distinct (row_ips (rows ns))
    → All (λ r. contains (ip ∷ new) r.ip ≡ true) (rows ns)
    → All (λ r. contains new r.ip ≡ true) (rows (without ip ns))
without-waits ip new [] d h = tt
without-waits ip new (placeholder ∷ ns) d h = without-waits ip new ns d h
without-waits ip new (row r ∷ ns) d h = elim (Bool-cases (str_eq r.ip ip)) [
  | inl e ↦ rw e (waits-drop ip new (rows ns) (rw ((eq_iff r.ip ip).0 e) at d.0) h.1)
  | inr e ↦ rw e (ground (arith, str_eq_comm r.ip ip, h.0), without-waits ip new ns d.1 h.1)
]

-- The first loop.
pub row_of-remove_gone :
    (new : List String) (ip : String) (ns : List Node)
    → contains new ip ≡ true
    → row_of ip (remove_gone new ns) ≡ row_of ip ns
unfolding remove_gone
row_of-remove_gone new ip [] h = refl
row_of-remove_gone new ip (placeholder ∷ ns) h = row_of-remove_gone new ip ns h
row_of-remove_gone new ip (row r ∷ ns) h =
    ground (arith, row_of-remove_gone new ip ns h, eq_iff r.ip ip)

contains-remove_gone :
    (new : List String) (ip : String) (ns : List Node)
    → contains (row_ips (rows ns)) ip ≡ false
    → contains (row_ips (rows (remove_gone new ns))) ip ≡ false
unfolding remove_gone
contains-remove_gone new ip [] h = refl
contains-remove_gone new ip (placeholder ∷ ns) h = contains-remove_gone new ip ns h
contains-remove_gone new ip (row r ∷ ns) h = ground (arith, contains-remove_gone new ip ns)

pub Distinct-remove_gone :
    (new : List String) (ns : List Node)
    → Distinct (row_ips (rows ns))
    → Distinct (row_ips (rows (remove_gone new ns)))
unfolding remove_gone
Distinct-remove_gone new [] h = tt
Distinct-remove_gone new (placeholder ∷ ns) h = Distinct-remove_gone new ns h
Distinct-remove_gone new (row r ∷ ns) h = elim (Bool-cases (contains new r.ip)) [
  | inl e ↦ rw e (contains-remove_gone new r.ip ns h.0, Distinct-remove_gone new ns h.1)
  | inr e ↦ rw e (Distinct-remove_gone new ns h.1)
]

pub remove_gone-waits :
    (new : List String) (ns : List Node)
    → All (λ r. contains new r.ip ≡ true) (rows (remove_gone new ns))
unfolding remove_gone
remove_gone-waits new [] = tt
remove_gone-waits new (placeholder ∷ ns) = remove_gone-waits new ns
remove_gone-waits new (row r ∷ ns) = elim (Bool-cases (contains new r.ip)) [
  | inl e ↦ rw e (e, remove_gone-waits new ns)
  | inr e ↦ rw e (remove_gone-waits new ns)
]

rows-drop_placeholder : (ns : List Node) → rows (drop_placeholder ns) ≡ rows ns
unfolding drop_placeholder
rows-drop_placeholder [] = refl
rows-drop_placeholder (placeholder ∷ ns) = refl
rows-drop_placeholder (row r ∷ ns) = ap (r ∷◌) (rows-drop_placeholder ns)

pub rows-drop_if_filled :
    (es : List Attacker) (ns : List Node) → rows (drop_if_filled es ns) ≡ rows ns
rows-drop_if_filled [] ns = refl
rows-drop_if_filled (e ∷ es) ns = rows-drop_placeholder ns

pub rows-append : (done : List Row) (ns : List Node) → rows (map row done ++ ns) ≡ done ++ rows ns
rows-append [] ns = refl
rows-append (r ∷ rs) ns = ap (r ∷◌) (rows-append rs ns)

-- `newMap` holds each entry of a list with distinct addresses.
last_entry-none :
    (es : List Attacker) (ip : String) → contains (ips es) ip ≡ false → last_entry es ip ≡ none
unfolding last_entry
last_entry-none [] ip h = refl
last_entry-none (e ∷ es) ip h = ground (arith, last_entry-none es ip)

pub last_entry_self :
    (es : List Attacker) → Distinct (ips es) → All (λ e. last_entry es e.ip ≡ some e) es
unfolding last_entry
last_entry_self [] h = tt
last_entry_self (e ∷ es) h = (
  rw (last_entry-none es e.ip h.0, str_eq_refl e.ip) refl,
  All-imp _ _ (λ x hx. rw hx) es (last_entry_self es h.1),
)
