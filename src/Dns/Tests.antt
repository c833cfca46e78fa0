-- ===== src/Dns/Tests.antt =====
-- The form at concrete configurations.
use mathlib.Core.List.{Memᴰ}
use tuxwall.Base.{true, false, ◌≡◌, refl, [], ◌∷◌, none}
use tuxwall.Dns.{Preset, presets, dns_up_detect_choice, dns_up_compose, Form}
use tuxwall.Dns.Detect.{detect-compose}

abbrev comodo : Preset
comodo = record { name = "comodo"; ips = "8.26.56.26" ∷ "8.20.247.20" ∷ []; dot = none }

in_presets : Memᴰ comodo presets
in_presets = Memᴰ.tail (Memᴰ.tail (Memᴰ.tail (Memᴰ.tail (Memᴰ.head refl))))

abbrev form : Form
form = record {
  choice = "comodo";
  tls_checked = true;
  tls_disabled = false;
  pihole = "";
  hint = "";
}

detect_test : dns_up_detect_choice ("9.9.9.9" ∷ "1.1.1.1" ∷ []) ≡ "pihole"
unfolding dns_up_detect_choice
detect_test = refl

detect-compose_example : dns_up_detect_choice (dns_up_compose "comodo" true) ≡ "comodo"
detect-compose_example =
    detect-compose comodo true (dns_up_compose "comodo" true) in_presets
      (record { size = refl; holds = λ s. refl })
