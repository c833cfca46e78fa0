-- ===== src/Dns.antt =====
-- www/scripts/dashboard.js: the DNS upstream form, `DNS_UPSTREAM_PRESETS`, `DNS_UPSTREAM_DOT`,
-- `dnsUpCompose`, `dnsUpDetectChoice`, `dnsUpSyncTlsBox`, `loadDnsUpstream` and the click on save.
pub mod Detect
mod Tests
use Prim.Native.String
use tuxwall.Base.{
  ℕ, String, Bool, true, false, not, ◌&&◌, ◌||◌, Option, none, some, List, [], ◌∷◌, map, str_eq,
  every, length, ◌==◌, if◌then◌else◌,
}
use tuxwall.Base.Texts.{contains}

pub record Preset : Type 0 where
  pub name : String
  pub ips : List String
  -- the host of DNS over TLS
  pub dot : Option String

abbrev preset : String → List String → Option String → Preset
preset n ips dot = record { name = n; ips = ips; dot = dot }

-- `DNS_UPSTREAM_PRESETS` in the order of its keys, joined with `DNS_UPSTREAM_DOT`
abbrev pub presets : List Preset
presets =
    preset "recursive" [] none
    ∷ preset "adguard" ("94.140.14.14" ∷ "94.140.15.15" ∷ "2a10:50c0::ad1" ∷ "2a10:50c0::ad2" ∷ [])
        (some "dns.adguard-dns.com")
    ∷ preset "cleanbrowsing"
        ("185.228.168.168" ∷ "185.228.169.168" ∷ "2a0d:2a00:1::" ∷ "2a0d:2a00:2::" ∷ [])
        (some "family-filter-dns.cleanbrowsing.org")
    ∷ preset "cloudflare"
        ("1.1.1.1" ∷ "1.0.0.1" ∷ "2606:4700:4700::1111" ∷ "2606:4700:4700::1001" ∷ [])
        (some "cloudflare-dns.com")
    ∷ preset "comodo" ("8.26.56.26" ∷ "8.20.247.20" ∷ []) none
    ∷ preset "controd" ("76.76.10.0" ∷ "76.76.2.0" ∷ "2606:1a40::" ∷ "2606:1a40:1::" ∷ []) none
    ∷ preset "dnswatch"
        ("84.200.69.80" ∷ "84.200.70.40" ∷ "2001:1608:10:25::1c04:b12f"
          ∷ "2001:1608:10:25::9249:d69a" ∷ [])
        none
    ∷ preset "google" ("8.8.8.8" ∷ "8.8.4.4" ∷ "2001:4860:4860::8888" ∷ "2001:4860:4860::8844" ∷ [])
        (some "dns.google")
    ∷ preset "mullvad" ("194.242.2.2" ∷ "2a07:a8c0::2" ∷ []) none
    ∷ preset "opendns"
        ("208.67.222.222" ∷ "208.67.220.220" ∷ "2620:119:35::35" ∷ "2620:119:53::53" ∷ [])
        (some "dnsovertls.opendns.com")
    ∷ preset "quad9" ("9.9.9.9" ∷ "149.112.112.112" ∷ "2620:fe::fe" ∷ "2620:fe::9" ∷ [])
        (some "dns.quad9.net")
    ∷ []

find_preset : String → List Preset → Option Preset
find_preset name [] = none
find_preset name (p ∷ ps) = if str_eq p.name name then some p else find_preset name ps

-- `ip + "@853#" + host`
abbrev over_tls : String → String → String
over_tls host ip = String.◌++◌ ip (String.◌++◌ "@853#" host)

abbrev with_host : List String → Option String → List String
with_host ips none = ips
with_host ips (some host) = map (over_tls host) ips

-- the addresses of a preset, with or without TLS
pub compose_preset : Preset → Bool → List String
compose_preset p false = p.ips
compose_preset p true = with_host p.ips p.dot

-- `|| []` where the choice is no preset
abbrev composed : Option Preset → Bool → List String
composed none tls = []
composed (some p) tls = compose_preset p tls

unfoldable pub dns_up_compose : String → Bool → List String
unfolding find_preset compose_preset
dns_up_compose choice tls = composed (find_preset choice presets) tls

-- `ips.length && ips.length === fwd.length && ips.every((ip) => fwd.includes(ip))`
unfoldable pub matches : List String → List String → Bool
matches [] fwd = false
matches (i ∷ is) fwd = length (i ∷ is) == length fwd && every (contains fwd) (i ∷ is)

-- the loop over the presets, without TLS first
unfoldable pub detect_in : List Preset → List String → String
unfolding matches compose_preset
detect_in [] fwd = "pihole"
detect_in (p ∷ ps) fwd =
    let rest = detect_in ps fwd in
    if matches (compose_preset p false) fwd || matches (compose_preset p true) fwd
    then p.name
    else rest

unfoldable pub dns_up_detect_choice : List String → String
unfolding detect_in
dns_up_detect_choice [] = "recursive"
dns_up_detect_choice (f ∷ fs) = detect_in presets (f ∷ fs)

-- The form: the choice, the TLS box and the field for a server of one's own.
pub record Form : Type 0 where
  pub choice : String
  pub tls_checked : Bool
  pub tls_disabled : Bool
  pub pihole : String
  pub hint : String

abbrev has_dot : Option Preset → Bool
has_dot none = false
has_dot (some p) = elim p.dot [ none ↦ false | some h ↦ true ]

-- `!!DNS_UPSTREAM_DOT[choice]`
unfoldable pub supports_tls : String → Bool
unfolding find_preset
supports_tls choice = has_dot (find_preset choice presets)

unfoldable pub dns_up_sync_tls_box : String → Form → Form
unfolding supports_tls
dns_up_sync_tls_box choice f =
    let supported = supports_tls choice in
    record f { tls_disabled = not supported; tls_checked = supported && f.tls_checked }

-- What the API says of the live configuration.
pub record Live : Type 0 where
  pub forwarders : List String
  pub tls_upstream : Bool

abbrev head_or : List String → String → String
head_or [] s = s
head_or (x ∷ xs) s = x

-- `loadDnsUpstream` on a successful answer
unfoldable pub load_dns_upstream : Live → Form → Form
unfolding dns_up_detect_choice dns_up_sync_tls_box
load_dns_upstream d f =
    let choice = dns_up_detect_choice d.forwarders in
    dns_up_sync_tls_box choice (record f {
      choice = choice;
      pihole = (if str_eq choice "pihole" then head_or d.forwarders f.pihole else f.pihole);
      tls_checked = d.tls_upstream;
      hint = "";
    })

-- What the click on save posts, or the message that it stops with. `trimmed` is the trimmed text of
-- the field for a server of one's own.
pub data Saved : Type 0 where
  refused : String → Saved
  posted : List String → Saved

unfoldable pub save : Form → String → Saved
unfolding dns_up_compose supports_tls
save f trimmed =
    if str_eq f.choice "pihole"
    then (if str_eq trimmed ""
        then refused "Enter the Pi-hole / custom server address first."
        else posted (trimmed ∷ []))
    else posted (dns_up_compose f.choice (f.tls_checked && supports_tls f.choice))
