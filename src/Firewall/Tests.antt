-- ===== src/Firewall/Tests.antt =====
-- Three rules, and a form without a port.
use tuxwall.Base.{String, ◌≡◌, refl, List, [], ◌∷◌, drop, map, All}
use tuxwall.Base.Sort.{sort, insert}
use tuxwall.Base.Texts.{codes}
use tuxwall.Firewall.{
  Rule, shown_rules, passes, includes, starts_with, joined, count_ifaces, render_fw_iface_chips,
  by_name, is_after,
}
use tuxwall.Firewall.Chips.{IsRight, sum_shown, rows_under, render_fw_iface_chips-IsRight}
use tuxwall.Firewall.Form.{RuleForm}

abbrev rule_on : String → String → Rule
rule_on number iface = record {
  number = number;
  to = "Anywhere";
  from = "10.0.0.0/8";
  action = "ALLOW IN";
  iface = iface;
  proto = "tcp";
  port = "22";
  src = "";
  dst = "";
}

abbrev three_rules : List Rule
three_rules = rule_on "1" "wg0" ∷ rule_on "2" "" ∷ rule_on "3" "enp5s0" ∷ []

chips_test :
    map (λ c. c.value) (render_fw_iface_chips "wg0" three_rules)
    ≡ "" ∷ "__none__" ∷ "enp5s0" ∷ "wg0" ∷ []
unfolding render_fw_iface_chips count_ifaces sort insert by_name is_after
chips_test = refl

search_test : map (λ r. r.number) (shown_rules (λ cs. cs) "" (codes "3 Any") three_rules) ≡ "3" ∷ []
unfolding shown_rules passes includes starts_with joined
search_test = refl

render_fw_iface_chips-IsRight_example :
    All (IsRight (λ cs. cs) three_rules) (drop 1 (render_fw_iface_chips "wg0" three_rules))
    × (sum_shown (render_fw_iface_chips "wg0" three_rules) ≡ rows_under (λ cs. cs) three_rules "")
render_fw_iface_chips-IsRight_example =
    render_fw_iface_chips-IsRight (λ cs. cs) "wg0" three_rules refl

abbrev form : RuleForm
form = record {
  action = "allow";
  direction = "in";
  iface = "wg0";
  from = "";
  family = "v4";
  proto = "tcp";
  port = "";
}
