-- ===== src/Wifi/Signal.antt =====
-- plugins/wifi-openwrt-plugin/web/plugin.js: what the overview computes of the clients, `SIG_BANDS`,
-- `signalTone`, `signalHistogram` and `renderApChart`, and the count of weak clients. A signal is in
-- whole dBm, none where there is no number.
use tuxwall.Base.{
  ℕ, zero, suc, ◌+◌, ◌-◌, ◌*◌, ◌/◌, String, Bool, true, false, not, Option, none, some, List, [],
  ◌∷◌, ◌++◌, map, keep, length, ltb, ◌==◌, str_eq, if◌then◌else◌,
}
use tuxwall.Base.Sort.{sort}

-- Native integers: n, and -(n + 1).
pub data ℤ : Type 0 where
  pos negsuc : ℕ → ℤ

-- Whether a signal is greater than -m dBm, for an m that is not 0.
abbrev pub above : ℤ → ℕ → Bool
above (pos n) m = ltb 0 m
above (negsuc n) m = ltb (n + 1) m

pub record Client : Type 0 where
  pub ap : Option String
  pub signal : Option ℤ

pub record Ap : Type 0 where
  pub name : Option String
  pub ip : Option String

pub data Tone : Type 0 where
  excellent good fair weak poor : Tone

unfoldable pub signal_tone : ℤ → Tone
signal_tone s =
    if not (above s 75)
    then poor
    else if not (above s 67)
    then weak
    else if not (above s 58)
    then fair
    else if not (above s 50)
    then good
    else excellent

-- `SIG_BANDS`: the `max` of each, without its sign; the last one has none.
abbrev pub sig_bands : List (Option ℕ)
sig_bands = some 50 ∷ some 58 ∷ some 67 ∷ some 75 ∷ none ∷ []

abbrev pub above_max : ℤ → Option ℕ → Bool
above_max s none = true
above_max s (some m) = above s m

-- `findIndex` from index `i` on
unfoldable pub band_from : ℕ → ℤ → List (Option ℕ) → Option ℕ
band_from i s [] = none
band_from i s (m ∷ ms) = let rest = band_from (suc i) s ms in if above_max s m then some i else rest

unfoldable pub bump_at : ℕ → List ℕ → List ℕ
bump_at i [] = []
bump_at zero (n ∷ ns) = suc n ∷ ns
bump_at (suc i) (n ∷ ns) = n ∷ bump_at i ns

abbrev pub index_or_last : Option ℕ → ℕ
index_or_last none = length sig_bands - 1
index_or_last (some i) = i

abbrev pub count_signal : Option ℤ → List ℕ → List ℕ
count_signal none counts = counts
count_signal (some s) counts = bump_at (index_or_last (band_from 0 s sig_bands)) counts

unfoldable pub count_clients : List Client → List ℕ → List ℕ
count_clients [] counts = counts
count_clients (c ∷ cs) counts = count_clients cs (count_signal c.signal counts)

abbrev pub sum : List ℕ → ℕ
sum [] = 0
sum (n ∷ ns) = n + sum ns

pub record Histogram : Type 0 where
  pub counts : List ℕ
  pub total : ℕ

unfoldable pub signal_histogram : List Client → Histogram
unfolding band_from bump_at count_clients
signal_histogram clients =
    let counts = count_clients clients (map (λ b. 0) sig_bands) in
    record { counts = counts; total = sum counts }

-- `c.signal != null && c.signal <= -75`
abbrev pub is_weak : Option ℤ → Bool
is_weak none = false
is_weak (some s) = not (above s 75)

-- The number that `renderOverview` shows of weak clients.
unfoldable pub weak_count : List Client → ℕ
weak_count clients = length (keep (λ c. is_weak c.signal) clients)

abbrev pub same_text : Option String → Option String → Bool
same_text none none = true
same_text (some a) (some b) = str_eq a b
same_text a b = false

-- `a || b` on texts that may be missing
abbrev pub or_else : Option String → String → String
or_else none d = d
or_else (some a) d = if str_eq a "" then d else a

pub record Row : Type 0 where
  pub name : String
  pub n : ℕ

abbrev pub row_of : List Client → Ap → Row
row_of clients a = record {
  name = or_else a.name (or_else a.ip "AP");
  n = length (keep (λ c. same_text c.ap a.name) clients);
}

-- the comparator, greater than 0
abbrev pub fewer : Row → Row → Bool
fewer a b = ltb a.n b.n

abbrev pub ap_rows : List Ap → List Client → List Row
ap_rows aps clients = sort fewer (keep (λ r. ltb 0 r.n) (map (row_of clients) aps))

abbrev pub mapped : List Row → ℕ
mapped rows = sum (map (λ r. r.n) rows)

-- The rows of the legend.
unfoldable pub ap_chart_rows : List Ap → List Client → List Row
ap_chart_rows aps clients =
    let rows = ap_rows aps clients in
    if ltb (mapped rows) (length clients)
    then rows ++ record { name = "Unassigned"; n = length clients - mapped rows } ∷ []
    else rows

-- The name and the share of the first row, a percentage rounded as `Math.round` does.
pub record Chart : Type 0 where
  pub rows : List Row
  pub total : ℕ
  pub top : String
  pub percent : ℕ

abbrev chart_of : List Row → Option Chart
chart_of [] = none
chart_of (r ∷ rs) =
    let total = mapped (r ∷ rs) in
    if total == 0
    then none
    else some (record {
      rows = r ∷ rs;
      total = total;
      top = r.name;
      percent = (200 * r.n + total) / (2 * total);
    })

-- `renderApChart`, or none where no client is associated
unfoldable pub render_ap_chart : List Ap → List Client → Option Chart
unfolding ap_chart_rows
render_ap_chart aps clients = chart_of (ap_chart_rows aps clients)
