-- ===== src/Wifi/Forms.antt =====
-- plugins/wifi-openwrt-plugin/web/plugin.js: what the form for networks posts, `saveNetForm` up to its
-- request. The name and the network are given trimmed, as the code trims them; the length of a
-- password is that of its characters, each of which is one code unit.
use tuxwall.Base.{
  String, Bool, true, false, not, ◌&&◌, ◌||◌, ◌≡◌, refl, Option, none, some, List, [], ◌∷◌, ◌++◌,
  length, ltb, ◌==◌, str_eq, if◌then◌else◌, if-elim, arith,
}
use tuxwall.Base.Texts.{codes}

pub record Network : Type 0 where
  pub band : String
  pub ssid : String
  pub encryption : String
  pub network : String

pub record NetForm : Type 0 where
  pub ssid : String
  pub band : String
  pub encryption : String
  pub network : String
  pub key : String

pub data Impact : Type 0 where
  renaming new_password new_network : Impact

-- What is posted, `new_ssid` where there is one.
pub record Payload : Type 0 where
  pub band : String
  pub ssid : String
  pub new_ssid : Option String
  pub encryption : String
  pub network : String
  pub key : String

-- The outcome of a press: refused with a message, or posted, perhaps after a question.
pub data Outcome : Type 0 where
  ssid_required password_short cancelled : Outcome
  posted : Payload → Outcome

abbrev pub when : Bool → Impact → List Impact
when b i = if b then i ∷ [] else []

-- What the question names; with nothing to name there is no question.
pub impact : Option Network → NetForm → List Impact
impact none f = when (not (str_eq f.key "")) new_password ++ new_network ∷ []
impact (some n) f =
    when (not (str_eq f.ssid n.ssid)) renaming ++ when (not (str_eq f.key "")) new_password

abbrev pub payload_of : Option Network → NetForm → Payload
payload_of none f = record {
  band = f.band;
  ssid = f.ssid;
  new_ssid = none;
  encryption = f.encryption;
  network = f.network;
  key = f.key;
}
payload_of (some n) f = record {
  band = n.band;
  ssid = n.ssid;
  new_ssid = some f.ssid;
  encryption = f.encryption;
  network = f.network;
  key = f.key;
}

abbrev pub is_new : Option Network → Bool
is_new none = true
is_new (some n) = false

abbrev pub is_short : String → Bool
is_short key = ltb (length (codes key)) 8

-- `saveNetForm` up to its request, for the network that is edited and the answer to the question
unfoldable pub save_net_form : Option Network → NetForm → (agreed : Bool) → Outcome
unfolding impact
save_net_form n f agreed =
    if str_eq f.ssid ""
    then ssid_required
    else if not (str_eq f.encryption "none") && is_new n && is_short f.key
    then password_short
    else if not (length (impact n f) == 0) && not agreed
    then cancelled
    else posted (payload_of n f)

-- An edit that leaves the name and gives no password.
abbrev pub keeps_name_and_key : Option Network → NetForm → Bool
keeps_name_and_key none f = false
keeps_name_and_key (some n) f = str_eq f.ssid n.ssid && str_eq f.key ""

abbrev pub or_first : Option String → String → String
or_first none s = s
or_first (some t) s = t

-- The name that the network has afterwards.
abbrev pub name_of : Payload → String
name_of p = or_first p.new_ssid p.ssid

no_impact : (n : Option Network) (f : NetForm) → (length (impact n f) == 0) ≡ keeps_name_and_key n f
unfolding impact
no_impact none f = ground arith
no_impact (some n) f = ground arith

-- What holds of a payload that is posted.
abbrev pub IsPosted : Option Network → NetForm → Bool → Payload → Type 0
IsPosted n f agreed p =
    (str_eq (name_of p) "" ≡ false)
    × ((is_new n && not (str_eq p.encryption "none") && is_short p.key) ≡ false)
    × ((agreed || keeps_name_and_key n f) ≡ true)

payload-IsPosted :
    (n : Option Network) (f : NetForm) (agreed : Bool)
    → str_eq f.ssid "" ≡ false
    → (not (str_eq f.encryption "none") && is_new n && is_short f.key) ≡ false
    → (not (length (impact n f) == 0) && not agreed) ≡ false
    → IsPosted n f agreed (payload_of n f)
payload-IsPosted none f agreed a b c = (a, ground (arith, b), ground (arith, c, no_impact none f))
payload-IsPosted (some n) f agreed a b c = (a, refl, ground (arith, c, no_impact (some n) f))

-- Each outcome against what was asked for.
abbrev pub IsDue : Option Network → NetForm → Bool → Outcome → Type 0
IsDue n f agreed ssid_required = str_eq f.ssid "" ≡ true
IsDue n f agreed password_short =
    (is_new n && not (str_eq f.encryption "none") && is_short f.key) ≡ true
IsDue n f agreed cancelled = (agreed || keeps_name_and_key n f) ≡ false
IsDue n f agreed (posted p) = IsPosted n f agreed p

-- Each outcome has its reason. The name is called for only where it is missing; a password is too
-- short only for a new network that is not open, with fewer than eight characters; nothing is posted
-- for want of consent only where the user did not agree, but for an edit that leaves the name and
-- gives no password, which is posted without a question; and what is posted has a name and, for a new
-- network that is not open, a password of eight characters at least.
pub save_net_form-IsDue :
    (n : Option Network) (f : NetForm) (agreed : Bool) → IsDue n f agreed (save_net_form n f agreed)
unfolding save_net_form
save_net_form-IsDue n f agreed =
    if-elim (IsDue n f agreed) (str_eq f.ssid "") ssid_required _ (λ a. a)
      (λ a.
        if-elim (IsDue n f agreed) (not (str_eq f.encryption "none") && is_new n && is_short f.key)
          password_short _ (λ b. ground (arith, b))
          (λ b.
            if-elim (IsDue n f agreed) (not (length (impact n f) == 0) && not agreed) cancelled
              (posted (payload_of n f)) (λ c. ground (arith, c, no_impact n f))
              (λ c. payload-IsPosted n f agreed a b c)))
