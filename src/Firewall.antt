-- ===== src/Firewall.antt =====
-- www/scripts/dashboard.js: the rules of the firewall, `renderFwRules`, `renderFwIfaceChips`,
-- `fwRuleDirection`, `fwActionMeta` and `buildRuleFromForm`. A text that is missing is
-- empty. `toLowerCase` is a parameter.
pub mod Chips
pub mod Form
mod Tests
use tuxwall.Base.{
  ℕ, zero, suc, ◌+◌, String, Bool, true, false, not, ◌&&◌, ◌||◌, Option, none, some, List, [], ◌∷◌,
  ◌++◌, map, keep, length, any, ◌==◌, str_eq, ltb, if◌then◌else◌,
}
use tuxwall.Base.Sort.{sort}
use tuxwall.Base.Texts.{codes}

pub record Rule : Type 0 where
  pub number : String
  pub to : String
  pub from : String
  pub action : String
  pub iface : String
  pub proto : String
  pub port : String
  pub src : String
  pub dst : String

-- `startsWith` and `includes`, on character codes
pub starts_with : List ℕ → List ℕ → Bool
starts_with cs [] = true
starts_with [] (d ∷ ds) = false
starts_with (c ∷ cs) (d ∷ ds) = (c == d) && starts_with cs ds

pub includes : List ℕ → List ℕ → Bool
unfolding starts_with
includes [] q = starts_with [] q
includes (c ∷ cs) q = starts_with (c ∷ cs) q || includes cs q

abbrev space : ℕ
space = 32

-- `join(" ")`
pub joined : List String → List ℕ
joined [] = []
joined (t ∷ []) = codes t
joined (t ∷ u ∷ us) = codes t ++ space ∷ joined (u ∷ us)

abbrev pub none_chip : String
none_chip = "__none__"

-- The two tests of `_fwFilterIface`.
abbrev pub passes_iface : String → Rule → Bool
passes_iface chosen r =
    if str_eq chosen none_chip && not (str_eq r.iface "")
    then false
    else not
        (not (str_eq chosen "") && not (str_eq chosen none_chip) && not (str_eq r.iface chosen))

module _ (lower : List ℕ → List ℕ) where
  abbrev pub haystack : Rule → List ℕ
  unfolding joined
  haystack r = lower (
      joined
        (r.number ∷ r.to ∷ r.from ∷ r.action ∷ r.iface ∷ r.proto ∷ r.port ∷ r.src ∷ r.dst ∷ []))

  -- `q` is the text of the search, trimmed and in lower case.
  abbrev pub passes : String → List ℕ → Rule → Bool
  unfolding includes
  passes chosen q r = passes_iface chosen r && (length q == 0 || includes (haystack r) q)

  -- The rows of `renderFwRules`.
  unfoldable pub shown_rules : String → List ℕ → List Rule → List Rule
  shown_rules chosen q rules = keep (passes chosen q) rules

-- `counts`, in the order in which its keys were added.
pub record Count : Type 0 where
  pub name : String
  pub n : ℕ

abbrev pub has_name : String → List Count → Bool
has_name i cs = any (λ c. str_eq c.name i) cs

abbrev pub raise : String → Count → Count
raise i c = if str_eq c.name i then record c { n = c.n + 1 } else c

abbrev pub add_count : String → List Count → List Count
add_count i cs = if has_name i cs then map (raise i) cs else cs ++ record { name = i; n = 1 } ∷ []

-- The loop over the rules: the counts, and `anyCount`.
unfoldable pub count_ifaces : List Rule → List Count → List Count
count_ifaces [] cs = cs
count_ifaces (r ∷ rs) cs = count_ifaces rs (if str_eq r.iface "" then cs else add_count r.iface cs)

abbrev pub any_count : List Rule → ℕ
any_count rules = length (keep (λ r. str_eq r.iface "") rules)

-- the order of `sort` without a comparator
pub is_after : List ℕ → List ℕ → Bool
is_after [] ds = false
is_after (c ∷ cs) [] = true
is_after (c ∷ cs) (d ∷ ds) = ltb d c || (c == d) && is_after cs ds

abbrev pub by_name : Count → Count → Bool
unfolding is_after
by_name a b = is_after (codes a.name) (codes b.name)

-- A chip with its count, which only "All" has none of.
pub record Chip : Type 0 where
  pub label : String
  pub value : String
  pub count : Option ℕ
  pub active : Bool

abbrev pub chip : String → String → String → Option ℕ → Chip
chip chosen label value count = record {
  label = label;
  value = value;
  count = count;
  active = str_eq chosen value;
}

-- `renderFwIfaceChips`, given the chip that is chosen; a count of 0 is not shown.
unfoldable pub render_fw_iface_chips : String → List Rule → List Chip
render_fw_iface_chips chosen rules =
    chip chosen "All" "" none
    ∷ chip chosen "any iface" none_chip (some (any_count rules))
    ∷ map (λ c. chip chosen c.name c.name (some c.n)) (sort by_name (count_ifaces rules []))

pub record Verdict : Type 0 where
  pub class : String
  pub label : String

-- `fwActionMeta`, on the verb in upper case and as it is
abbrev pub fw_action_meta : (upper : String) → (verb : String) → Verdict
fw_action_meta upper verb =
    if str_eq upper "ALLOW"
    then record { class = "fw-act-pass"; label = "Pass" }
    else if str_eq upper "DENY"
    then record { class = "fw-act-block"; label = "Block" }
    else if str_eq upper "REJECT"
    then record { class = "fw-act-reject"; label = "Reject" }
    else if str_eq upper "LIMIT"
    then record { class = "fw-act-limit"; label = "Limit" }
    else record { class = "fw-act-pass"; label = if str_eq verb "" then "?" else verb }

-- `fwRuleDirection`
abbrev pub fw_rule_direction : (direction : String) → (action : String) → String
unfolding includes
fw_rule_direction direction action =
    if not (str_eq direction "")
    then direction
    else if includes (codes action) (codes "OUT")
    then "OUT"
    else "IN"
