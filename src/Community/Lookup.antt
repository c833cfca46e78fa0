-- ===== src/Community/Lookup.antt =====
-- What a badge asks of tuxwall.org.
use tuxwall.Base.{
  ℕ, ◌≡◌, refl, String, Option, none, false, not, Option, none, some, List, [], ◌∷◌, str_eq, keep,
  arith,
}
use tuxwall.Base.Texts.{contains, Distinct, str_eq_refl}
use tuxwall.Community.{
  Community, fresh, cached_for, badge_of, badge, severity, answered, severity_of,
}

pub contains-drop :
    (ss : List String) (s t : String)
    → contains ss t ≡ false
    → contains (keep (λ x. not (str_eq x s)) ss) t ≡ false
contains-drop [] s t h = refl
contains-drop (x ∷ xs) s t h = ground (arith, contains-drop xs s t)

pub contains-drop_self :
    (ss : List String) (s : String) → contains (keep (λ x. not (str_eq x s)) ss) s ≡ false
contains-drop_self [] s = refl
contains-drop_self (x ∷ xs) s = ground (arith, contains-drop_self xs s)

Distinct-drop :
    (ss : List String) (s : String) → Distinct ss → Distinct (keep (λ x. not (str_eq x s)) ss)
Distinct-drop [] s h = tt
Distinct-drop (x ∷ xs) s h = ground (arith, Distinct-drop xs s h.1, contains-drop xs s x h.0)

badge_of-in_flight :
    (ip : String) (c : Community) (o : Option String)
    → Distinct c.in_flight
    → Distinct (badge_of ip c o).after.in_flight
unfolding badge_of
badge_of-in_flight ip c (some s) d = d
badge_of-in_flight ip c none d = ground arith

-- A badge asks for no address that is being asked for already.
pub badge-in_flight :
    (now : ℕ) (ip : String) (c : Community)
    → Distinct c.in_flight
    → Distinct (badge now ip c).after.in_flight
unfolding badge
badge-in_flight now ip c d = badge_of-in_flight ip c _ d

pub badge-cache : (now : ℕ) (ip : String) (c : Community) → (badge now ip c).after.cache ≡ c.cache
unfolding badge
badge-cache now ip c = ground arith

pub cached_for-answered :
    (now : ℕ) (ip raw : String) (c : Community)
    → cached_for ip (answered now ip (severity raw) c).cache
      ≡ some (record { ip = ip; ts = now; sev = severity_of raw })
unfolding answered cached_for
cached_for-answered now ip raw c = rw (str_eq_refl ip)

-- The severity that a badge shows depends on the answers alone.
abbrev pub sev_of : Option String → String
sev_of none = ""
sev_of (some sev) = sev

badge_of-sev : (ip : String) (c : Community) (o : Option String) → (badge_of ip c o).sev ≡ sev_of o
unfolding badge_of
badge_of-sev ip c none = refl
badge_of-sev ip c (some s) = refl

pub badge-sev :
    (now : ℕ) (ip : String) (c : Community)
    → (badge now ip c).sev ≡ sev_of (fresh now (cached_for ip c.cache))
unfolding badge
badge-sev now ip c = badge_of-sev ip c (fresh now (cached_for ip c.cache))
