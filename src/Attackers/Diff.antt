-- ===== src/Attackers/Diff.antt =====
-- `diffIpTable`: the children of the table's body, and how one refresh moves them.
pub mod Places
pub mod Waits
pub mod Refresh
pub mod Invariant
mod Tests
use tuxwall.Base.{
  ℕ, zero, suc, ◌+◌, ◌-◌, String, Bool, true, false, Option, none, some, List, [], ◌∷◌, map, ltb,
  ◌==◌, str_eq, if◌then◌else◌, take, keep,
}
use tuxwall.Base.Texts.{contains}
use tuxwall.Community.{Community, badge}
use tuxwall.Attackers.{Attacker, Scene, Row, build_row, update_row}

pub data Node : Type 0 where
  row : Row → Node
  placeholder : Node

abbrev pub rows : List Node → List Row
rows [] = []
rows (row r ∷ ns) = r ∷ rows ns
rows (placeholder ∷ ns) = rows ns

abbrev pub ips : List Attacker → List String
ips = map (λ e. e.ip)

abbrev pub row_ips : List Row → List String
row_ips = map (λ r. r.ip)

-- `newMap[ip]`: of two entries with one address the later
unfoldable pub last_entry : List Attacker → String → Option Attacker
last_entry [] ip = none
last_entry (e ∷ es) ip = elim (last_entry es ip) [
  | some x ↦ some x
  | none ↦ if str_eq e.ip ip then some e else none
]

-- `tbody.querySelector('tr[data-ip="…"]')`: the first row with the address
abbrev pub row_of : String → List Node → Option Row
row_of ip [] = none
row_of ip (placeholder ∷ ns) = row_of ip ns
row_of ip (row r ∷ ns) = if str_eq r.ip ip then some r else row_of ip ns

-- its place among the children
pub index_of : String → List Node → ℕ
index_of ip [] = zero
index_of ip (placeholder ∷ ns) = suc (index_of ip ns)
index_of ip (row r ∷ ns) = if str_eq r.ip ip then zero else suc (index_of ip ns)

-- `insertBefore(node, children[i] || null)`
pub insert_at : ℕ → Node → List Node → List Node
insert_at i n [] = n ∷ []
insert_at zero n (m ∷ ns) = n ∷ m ∷ ns
insert_at (suc i) n (m ∷ ns) = m ∷ insert_at i n ns

pub remove_at : ℕ → List Node → List Node
remove_at i [] = []
remove_at zero (m ∷ ns) = ns
remove_at (suc i) (m ∷ ns) = m ∷ remove_at i ns

pub set_at : ℕ → Node → List Node → List Node
set_at i n [] = []
set_at zero n (m ∷ ns) = n ∷ ns
set_at (suc i) n (m ∷ ns) = m ∷ set_at i n ns

-- `if (tbody.children[idx] !== row) tbody.insertBefore(row, …)` for a row at `j`, brought up to date.
-- A row that stands further up is taken out before it is put in, which moves the sibling that it is
-- put in front of.
pub move : ℕ → ℕ → Node → List Node → List Node
unfolding insert_at remove_at set_at
move j idx n ns =
    if j == idx
    then set_at j n ns
    else insert_at (if ltb j idx then idx - 1 else idx) n (remove_at j ns)

put : Scene → String → ℕ → Attacker → List Node → Option Row → List Node
unfolding move insert_at
put sc sev idx e ns none = insert_at idx (row (build_row sc sev e)) ns
put sc sev idx e ns (some r) = move (index_of e.ip ns) idx (row (update_row sc sev e r)) ns

-- One round of the second loop, for the entry at `idx`.
pub place : Scene → String → ℕ → Attacker → List Node → List Node
unfolding put index_of
place sc sev idx e ns = put sc sev idx e ns (row_of e.ip ns)

-- the first loop
stays : List String → Node → Bool
stays new (row r) = contains new r.ip
stays new placeholder = true

unfoldable pub remove_gone : List String → List Node → List Node
unfolding stays
remove_gone new = keep (stays new)

unfoldable pub drop_placeholder : List Node → List Node
drop_placeholder [] = []
drop_placeholder (row r ∷ ns) = row r ∷ drop_placeholder ns
drop_placeholder (placeholder ∷ ns) = ns

pub record Table : Type 0 where
  pub nodes : List Node
  pub community : Community

-- Milliseconds for the badge, seconds for the cells: both clocks are read.
pub step : Scene → ℕ → ℕ → Attacker → Table → Table
step sc now_ms idx e t =
    let b = badge now_ms e.ip t.community in
    record { nodes = place sc b.sev idx e t.nodes; community = b.after }

pub loop : Scene → ℕ → List Attacker → ℕ → List Attacker → Table → Table
unfolding last_entry
loop sc now_ms slice idx [] t = t
loop sc now_ms slice idx (e ∷ es) t = elim (last_entry slice e.ip) [
  | none ↦ loop sc now_ms slice (suc idx) es t
  | some x ↦ loop sc now_ms slice (suc idx) es (step sc now_ms idx x t)
]

abbrev drop_if_filled : List Attacker → List Node → List Node
drop_if_filled [] ns = ns
drop_if_filled (e ∷ es) ns = drop_placeholder ns

unfoldable pub diff_table : Scene → ℕ → List Attacker → ℕ → Table → Table
unfolding loop remove_gone drop_placeholder
diff_table sc now_ms entries limit t =
    let slice = take limit entries in
    let kept = record t { nodes = remove_gone (ips slice) t.nodes } in
    let t' = loop sc now_ms slice zero slice kept in
    record t' { nodes = drop_if_filled slice t'.nodes }
