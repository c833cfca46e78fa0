-- ===== src/Community.antt =====
-- www/scripts/dashboard.js, in `renderSecurity`: the tuxwall.org report badges. `communityCache`
-- keeps each answer for five minutes, `communityInFlight` holds the addresses being asked for.
-- Times are milliseconds.
pub mod Lookup
use tuxwall.Base.{
  ℕ, ◌*◌, ◌-◌, String, Bool, not, Option, none, some, List, [], ◌∷◌, ltb, str_eq, keep,
  if◌then◌else◌,
}
use tuxwall.Base.Texts.{contains}

pub record Cached : Type 0 where
  pub ip : String
  pub ts : ℕ
  pub sev : String

pub record Community : Type 0 where
  pub cache : List Cached
  pub in_flight : List String
  -- the requests sent, the latest first
  pub asked : List String

abbrev pub ttl : ℕ
ttl = 5 * 60 * 1000

pub cached_for : String → List Cached → Option Cached
cached_for ip [] = none
cached_for ip (c ∷ cs) = if str_eq c.ip ip then some c else cached_for ip cs

-- `cached && Date.now() - cached.ts < COMMUNITY_TTL`
abbrev pub fresh : ℕ → Option Cached → Option String
fresh now none = none
fresh now (some c) = if ltb (now - c.ts) ttl then some c.sev else none

-- `communityLookup` up to the answer
pub lookup : String → Community → Community
lookup ip c =
    if contains c.in_flight ip
    then c
    else record c { in_flight = ip ∷ c.in_flight; asked = ip ∷ c.asked }

pub record Badge : Type 0 where
  pub sev : String
  pub after : Community

badge_of : String → Community → Option String → Badge
unfolding lookup
badge_of ip c (some sev) = record { sev = sev; after = c }
badge_of ip c none = record { sev = ""; after = lookup ip c }

-- `communityBadge`: the severity that colours the badge, "" while it is not known
unfoldable pub badge : ℕ → String → Community → Badge
unfolding badge_of cached_for
badge now ip c = badge_of ip c (fresh now (cached_for ip c.cache))

-- The answer to a request: the severity in it, in lower case, or a failure.
pub data Answer : Type 0 where
  severity : String → Answer
  failed : Answer

abbrev known : List String
known = "low" ∷ "medium" ∷ "high" ∷ "critical" ∷ []

abbrev pub severity_of : String → String
severity_of raw = if contains known raw then raw else "none"

-- The `then`, `catch` and `finally` of `communityLookup`, with what the badges on the page are
-- given to show.
pub answered : ℕ → String → Answer → Community → Community
answered now ip (severity raw) c = record c {
  cache =
      record { ip = ip; ts = now; sev = severity_of raw }
      ∷ keep (λ e. not (str_eq e.ip ip)) c.cache;
  in_flight = keep (λ s. not (str_eq s ip)) c.in_flight;
}
answered now ip failed c = record c { in_flight = keep (λ s. not (str_eq s ip)) c.in_flight }
