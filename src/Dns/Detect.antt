-- ===== src/Dns/Detect.antt =====
-- Saving a choice of the form and reading it back.
use mathlib.Core.List.{Memᴰ}
use tuxwall.Base.{
  String, Bool, true, false, ◌&&◌, ◌≡◌, refl, ap, sym, ◌∙◌, List, [], ◌∷◌, str_eq, every, length,
  arith, All, All-get,
}
use tuxwall.Base.Texts.{contains}
use tuxwall.Dns.{
  Preset, presets, compose_preset, dns_up_compose, matches, detect_in, dns_up_detect_choice,
  supports_tls, Form, load_dns_upstream, posted, save,
}

-- The same addresses, as often or not, and as many.
pub record SameServers (a b : List String) : Type 0 where
  pub size : length a ≡ length b
  pub holds : (s : String) → contains a s ≡ contains b s

every-same :
    (a b is : List String)
    → ((s : String) → contains a s ≡ contains b s)
    → every (contains a) is ≡ every (contains b) is
every-same a b [] h = refl
every-same a b (i ∷ is) h = ground (arith, h i, every-same a b is h)

matches-same : (is a b : List String) → SameServers a b → matches is a ≡ matches is b
unfolding matches
matches-same [] a b h = refl
matches-same (i ∷ is) a b h = ground (arith, h.size, h.holds i, every-same a b is h.holds)

detect_in-same :
    (ps : List Preset) (a b : List String) → SameServers a b → detect_in ps a ≡ detect_in ps b
unfolding detect_in
detect_in-same [] a b h = refl
detect_in-same (p ∷ ps) a b h = ground (
  arith,
  matches-same (compose_preset p false) a b h,
  matches-same (compose_preset p true) a b h,
  detect_in-same ps a b h,
)

detect-same :
    (a b : List String) → SameServers a b → dns_up_detect_choice a ≡ dns_up_detect_choice b
unfolding dns_up_detect_choice
detect-same [] [] h = refl
detect-same [] (x ∷ b) h = absurd (omega (arith, h.size))
detect-same (x ∷ a) [] h = absurd (omega (arith, h.size))
detect-same (x ∷ a) (y ∷ b) h = detect_in-same presets (x ∷ a) (y ∷ b) h

-- Each preset is told from those above it, with TLS and without.
abbrev IsDetected : Preset → Type 0
IsDetected p =
    (dns_up_detect_choice (dns_up_compose p.name false) ≡ p.name)
    × (dns_up_detect_choice (dns_up_compose p.name true) ≡ p.name)

All-IsDetected : All IsDetected presets
unfolding dns_up_detect_choice dns_up_compose
All-IsDetected = (
  (refl, refl),
  (
    (refl, refl),
    (
      (refl, refl),
      (
        (refl, refl),
        (
          (refl, refl),
          (
            (refl, refl),
            ((refl, refl), ((refl, refl), ((refl, refl), ((refl, refl), ((refl, refl), tt))))),
          ),
        ),
      ),
    ),
  ),
)

All-preset_names : All (λ p. str_eq p.name "pihole" ≡ false) presets
All-preset_names =
    (refl, (refl, (refl, (refl, (refl, (refl, (refl, (refl, (refl, (refl, (refl, tt)))))))))))

-- Whichever preset is saved, with TLS or without, the form finds it again in the live
-- configuration, in whatever order the resolver lists the addresses.
pub detect-compose :
    (p : Preset) (tls : Bool) (live : List String)
    → Memᴰ p presets
    → SameServers live (dns_up_compose p.name tls)
    → dns_up_detect_choice live ≡ p.name
detect-compose p false live m h =
    detect-same live _ h ∙ (All-get IsDetected presets p m All-IsDetected).0
detect-compose p true live m h =
    detect-same live _ h ∙ (All-get IsDetected presets p m All-IsDetected).1

posted_preset :
    (f : Form) (p : Preset) (trimmed : String) (live : List String)
    → Memᴰ p presets
    → f.choice ≡ p.name
    → save f trimmed ≡ posted live
    → live ≡ dns_up_compose f.choice (f.tls_checked && supports_tls f.choice)
unfolding save
posted_preset f p trimmed live m same h =
    let other : str_eq f.choice "pihole" ≡ false =
      ap (λ c. str_eq c "pihole") same
      ∙ All-get (λ q. str_eq q.name "pihole" ≡ false) presets p m All-preset_names in
    ground (arith, h, other)

and_twice : (a b : Bool) → (b && (a && b)) ≡ (a && b)
and_twice a b = ground arith

-- What the form shows when it is loaded after a preset was saved from it and the resolver took the
-- addresses over: the same choice, the TLS box as it was saved, and disabled where the preset has no
-- host for TLS.
pub load-save :
    (f g : Form) (p : Preset) (trimmed : String) (live : List String)
    → Memᴰ p presets
    → f.choice ≡ p.name
    → save f trimmed ≡ posted live
    → (load_dns_upstream
          (record { forwarders = live; tls_upstream = f.tls_checked && supports_tls f.choice })
          g).choice
        ≡ f.choice
      × (load_dns_upstream
          (record { forwarders = live; tls_upstream = f.tls_checked && supports_tls f.choice })
          g).tls_checked
        ≡ (f.tls_checked && supports_tls f.choice)
unfolding load_dns_upstream save
load-save f g p trimmed live m same h =
    let tls = f.tls_checked && supports_tls f.choice in
    let sent = posted_preset f p trimmed live m same h in
    let found =
      detect-compose p tls live m (rw (sent, same) (record { size = refl; holds = λ s. refl }))
      ∙ sym same in
    (found, ap (λ c. supports_tls c && tls) found ∙ and_twice f.tls_checked (supports_tls f.choice))

-- A single server is never taken for a preset, and the form shows it in its field.
pub detect-custom :
    (g : Form) (server : String) (tls : Bool)
    → ((load_dns_upstream (record { forwarders = server ∷ []; tls_upstream = tls }) g).choice
        ≡ "pihole")
      × ((load_dns_upstream (record { forwarders = server ∷ []; tls_upstream = tls }) g).pihole
          ≡ server)
unfolding load_dns_upstream
detect-custom g server tls = (refl, refl)
