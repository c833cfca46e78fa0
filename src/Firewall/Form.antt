-- ===== src/Firewall/Form.antt =====
-- www/scripts/dashboard.js: the rule that the form makes, `buildRuleFromForm`. The texts of the source
-- and the port are given trimmed.
use tuxwall.Base.{
  String, Bool, true, not, ◌&&◌, ◌||◌, ◌≡◌, refl, Option, none, some, List, [], ◌∷◌, ◌++◌, str_eq,
  if◌then◌else◌,
}

pub record RuleForm : Type 0 where
  pub action : String
  pub direction : String
  pub iface : String
  pub from : String
  pub family : String
  pub proto : String
  pub port : String

-- `source`
abbrev pub source_of : RuleForm → String
source_of f =
    if not (str_eq f.from "")
    then f.from
    else if str_eq f.family "v4"
    then "0.0.0.0/0"
    else if str_eq f.family "v6"
    then "::/0"
    else "any"

abbrev pub on_iface : String → List String
on_iface i = if str_eq i "" then [] else "on" ∷ i ∷ []

abbrev pub is_transport : String → Bool
is_transport p = str_eq p "tcp" || str_eq p "udp"

abbrev pub to_port : RuleForm → List String
to_port f =
    if str_eq f.port ""
    then []
    else "to"
      ∷ "any"
      ∷ "port"
      ∷ f.port
      ∷ (if is_transport f.proto then "proto" ∷ f.proto ∷ [] else [])

-- The words of the rule, or none where the form is refused.
unfoldable pub build_rule_from_form : RuleForm → Option (List String)
build_rule_from_form f =
    if str_eq f.port "" && str_eq f.iface "" && str_eq f.from ""
    then none
    else some (f.action ∷ f.direction ∷ on_iface f.iface ++ "from" ∷ source_of f ∷ to_port f)

-- Without a port, forms that differ in nothing but the protocol make the same rule, which names none:
-- one that is meant for a protocol is made for all.
pub build_rule_from_form-any_proto :
    (f : RuleForm) (proto : String)
    → str_eq f.port "" ≡ true
    → build_rule_from_form (record f { proto = proto }) ≡ build_rule_from_form f
unfolding build_rule_from_form
build_rule_from_form-any_proto f proto e = rw e refl
