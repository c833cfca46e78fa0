-- ===== src/Leases.antt =====
-- www/scripts/dashboard.js: the table of the DHCP clients, `sortLeases`, the click on a head of a
-- column, `filterLeases` and the counts of `render`. What the browser's locale decides, and how it
-- writes a number, is a parameter.
pub mod Order
mod Tests
use tuxwall.Base.{
  ℕ, zero, suc, ◌≡◌, String, Bool, true, false, not, ◌&&◌, ◌||◌, Option, none, some, List, [], ◌∷◌,
  ◌==◌, str_eq, keep, any, length, if◌then◌else◌,
}
use tuxwall.Base.Sort.{sort}
use tuxwall.Base.Texts.{codes}
use tuxwall.Ipv4.{Sign, less, same, more, sign, compare_ip}
use tuxwall.Ipv4.Order.{flip, NotMore}

-- `toLowerCase`, `localeCompare`, `includes` and the text of a number. A comparison is consistent.
pub record Browser : Type 0 where
  pub lower : String → String
  pub locale_compare : String → String → Sign
  pub includes : String → String → Bool
  pub show : ℕ → String
  pub compare-flip : (a b : String) → locale_compare b a ≡ flip (locale_compare a b)
  pub compare_trans :
      (a b c : String)
      → NotMore (locale_compare a b)
      → NotMore (locale_compare b c)
      → NotMore (locale_compare a c)

pub record Lease : Type 0 where
  pub hostname : Option String
  pub ip : String
  pub mac : Option String
  pub vendor : Option String
  -- `l.state || 0` and `l.type || 0`
  pub state : ℕ
  pub type : ℕ
  pub static : Bool
  pub remaining : Option ℕ
  pub last_seen : Option ℕ
  pub banned : Bool

-- the `data-sort` of a column
pub data Column : Type 0 where
  hostname ip mac type remaining last_seen banned : Column

abbrev column_number : Column → ℕ
column_number hostname = 0
column_number ip = 1
column_number mac = 2
column_number type = 3
column_number remaining = 4
column_number last_seen = 5
column_number banned = 6

-- `state.sortKey`, and whether `state.sortDir` is 1
pub record Sorting : Type 0 where
  pub key : Column
  pub ascending : Bool

-- the click on the head of a column
unfoldable pub click_head : Column → Sorting → Sorting
click_head key s =
    if column_number s.key == column_number key
    then record s { ascending = not s.ascending }
    else record { key = key; ascending = true }

-- `x.remaining ?? -1`, one higher
abbrev pub rank : Option ℕ → ℕ
rank none = 0
rank (some n) = suc n

-- `* dir`
abbrev pub directed : Bool → Sign → Sign
directed true s = s
directed false s = flip s

abbrev pub is_more : Sign → Bool
is_more less = false
is_more same = false
is_more more = true

-- the leases that are not declined
abbrev pub active_leases : List Lease → List Lease
active_leases = keep (λ l. not (l.state == 2))

-- What `render` shows: the rows, and the counts above them.
pub record Shown : Type 0 where
  pub rows : List Lease
  pub total : ℕ
  pub dynamic : ℕ
  pub reserved : ℕ
  pub statics : ℕ

module _ (w : Browser) where
  abbrev or_empty : Option String → String
  or_empty none = ""
  or_empty (some s) = s

  abbrev shown : Option ℕ → String
  shown none = ""
  shown (some n) = w.show n

  abbrev flag : Bool → String
  flag true = "true"
  flag false = "false"

  -- `String(x[key] ?? "")`
  pub column_text : Column → Lease → String
  column_text hostname l = or_empty l.hostname
  column_text ip l = l.ip
  column_text mac l = or_empty l.mac
  column_text type l = w.show l.type
  column_text remaining l = shown l.remaining
  column_text last_seen l = shown l.last_seen
  column_text banned l = flag l.banned

  -- The comparator, before `* dir`.
  unfoldable pub compare_by : Column → Lease → Lease → Sign
  unfolding column_text
  compare_by ip x y = compare_ip (codes x.ip) (codes y.ip)
  compare_by remaining x y = sign (rank x.remaining) (rank y.remaining)
  compare_by hostname x y =
      w.locale_compare (w.lower (column_text hostname x)) (w.lower (column_text hostname y))
  compare_by mac x y = w.locale_compare (w.lower (column_text mac x)) (w.lower (column_text mac y))
  compare_by type x y =
      w.locale_compare (w.lower (column_text type x)) (w.lower (column_text type y))
  compare_by last_seen x y =
      w.locale_compare (w.lower (column_text last_seen x)) (w.lower (column_text last_seen y))
  compare_by banned x y =
      w.locale_compare (w.lower (column_text banned x)) (w.lower (column_text banned y))

  abbrev pub after : Sorting → Lease → Lease → Bool
  after s x y = is_more (directed s.ascending (compare_by s.key x y))

  unfoldable pub sort_leases : Sorting → List Lease → List Lease
  unfolding sort
  sort_leases s = sort (after s)

  -- `String(v)` of a field that is `null`
  abbrev or_null : Option String → String
  or_null none = "null"
  or_null (some s) = s

  abbrev pub lease_matches : String → Lease → Bool
  lease_matches q l =
      any (λ v. w.includes (w.lower v) q)
        (or_null l.hostname ∷ l.ip ∷ or_null l.mac ∷ or_null l.vendor ∷ [])

  -- `q` is `state.filter` after `trim` and `toLowerCase`.
  unfoldable pub filter_leases : String → List Lease → List Lease
  filter_leases q ls = if str_eq q "" then ls else keep (lease_matches q) ls

  unfoldable pub render : Sorting → String → List Lease → Shown
  unfolding sort_leases filter_leases
  render s q leases =
      let active = active_leases leases in
      record {
        rows = filter_leases q (sort_leases s active);
        total = length active;
        dynamic = length (keep (λ l. l.type == 0 && not l.static) active);
        reserved = length (keep (λ l. l.type == 1) active);
        statics = length (keep (λ l. l.static) active);
      }
