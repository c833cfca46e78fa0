-- ===== src/Wifi/Bands.antt =====
-- The signal histogram against `signalTone` and the count of weak clients.
use tuxwall.Base.{
  ℕ, ◌+◌, ◌≡◌, refl, ap, ◌∙◌, Bool, true, false, Option, none, some, List, [], ◌∷◌, map, keep,
  length, ◌==◌, arith, if◌then◌else◌,
}
use tuxwall.Wifi.Signal.{
  ℤ, pos, negsuc, Client, Tone, excellent, good, fair, weak, poor, signal_tone, sig_bands,
  band_from, bump_at, count_signal, count_clients, sum, index_or_last, signal_histogram, weak_count,
  is_weak,
}

-- The tones in the order of `SIG_BANDS`.
abbrev pub place : Tone → ℕ
place excellent = 0
place good = 1
place fair = 2
place weak = 3
place poor = 4

abbrev pub tones : List Tone
tones = excellent ∷ good ∷ fair ∷ weak ∷ poor ∷ []

abbrev pub has_tone : Tone → Option ℤ → Bool
has_tone t none = false
has_tone t (some s) = place (signal_tone s) == place t

abbrev pub has_signal : Option ℤ → Bool
has_signal none = false
has_signal (some s) = true

abbrev pub count_tone : List Client → Tone → ℕ
count_tone clients t = length (keep (λ c. has_tone t c.signal) clients)

-- `findIndex` on the bands finds the place of the tone.
band_from-signal_tone : (s : ℤ) → index_or_last (band_from 0 s sig_bands) ≡ place (signal_tone s)
unfolding band_from signal_tone
band_from-signal_tone (pos n) = ground arith
band_from-signal_tone (negsuc n) = ground arith

-- A list of five, raised by one at a place.
bump_at-place :
    (t : Tone) (a b c d e : ℕ)
    → bump_at (place t) (a ∷ b ∷ c ∷ d ∷ e ∷ [])
      ≡ (a + (if place t == 0 then 1 else 0))
        ∷ (b + (if place t == 1 then 1 else 0))
        ∷ (c + (if place t == 2 then 1 else 0))
        ∷ (d + (if place t == 3 then 1 else 0))
        ∷ (e + (if place t == 4 then 1 else 0))
        ∷ []
unfolding bump_at
bump_at-place excellent a b c d e = ground arith
bump_at-place good a b c d e = ground arith
bump_at-place fair a b c d e = ground arith
bump_at-place weak a b c d e = ground arith
bump_at-place poor a b c d e = ground arith

-- The counts when those of `clients` are added to them.
abbrev raised : List Client → ℕ → ℕ → ℕ → ℕ → ℕ → List ℕ
raised clients a b c d e =
    (a + count_tone clients excellent)
    ∷ (b + count_tone clients good)
    ∷ (c + count_tone clients fair)
    ∷ (d + count_tone clients weak)
    ∷ (e + count_tone clients poor)
    ∷ []

count_signal-bump :
    (s : ℤ) (counts : List ℕ)
    → count_signal (some s) counts ≡ bump_at (place (signal_tone s)) counts
count_signal-bump s counts = ap (λ i. bump_at i counts) (band_from-signal_tone s)

abbrev one_if : Bool → ℕ
one_if b = if b then 1 else 0

count_signal-has_tone :
    (o : Option ℤ) (a b c d e : ℕ)
    → count_signal o (a ∷ b ∷ c ∷ d ∷ e ∷ [])
      ≡ (a + one_if (has_tone excellent o))
        ∷ (b + one_if (has_tone good o))
        ∷ (c + one_if (has_tone fair o))
        ∷ (d + one_if (has_tone weak o))
        ∷ (e + one_if (has_tone poor o))
        ∷ []
count_signal-has_tone none a b c d e = ground arith
count_signal-has_tone (some s) a b c d e =
    count_signal-bump s (a ∷ b ∷ c ∷ d ∷ e ∷ []) ∙ bump_at-place (signal_tone s) a b c d e

count_tone-cons :
    (t : Tone) (x : Client) (cs : List Client) (n : ℕ)
    → (n + one_if (has_tone t x.signal)) + count_tone cs t ≡ n + count_tone (x ∷ cs) t
count_tone-cons t x cs n = ground arith

five :
    (a b c d e a' b' c' d' e' : ℕ)
    → a ≡ a'
    → b ≡ b'
    → c ≡ c'
    → d ≡ d'
    → e ≡ e'
    → Path (List ℕ) (a ∷ b ∷ c ∷ d ∷ e ∷ []) (a' ∷ b' ∷ c' ∷ d' ∷ e' ∷ [])
five a b c d e a' b' c' d' e' p q r s t = cc

count_clients-raised :
    (cs : List Client) (a b c d e : ℕ)
    → count_clients cs (a ∷ b ∷ c ∷ d ∷ e ∷ []) ≡ raised cs a b c d e
unfolding count_clients
count_clients-raised [] a b c d e = ground arith
count_clients-raised (x ∷ cs) a b c d e =
    let o = x.signal in
    ap (count_clients cs) (count_signal-has_tone o a b c d e)
    ∙ count_clients-raised cs (a + one_if (has_tone excellent o)) (b + one_if (has_tone good o))
        (c + one_if (has_tone fair o)) (d + one_if (has_tone weak o)) (e + one_if (has_tone poor o))
    ∙ five _ _ _ _ _ _ _ _ _ _ (count_tone-cons excellent x cs a) (count_tone-cons good x cs b)
        (count_tone-cons fair x cs c) (count_tone-cons weak x cs d) (count_tone-cons poor x cs e)

one_tone : (o : Option ℤ) → sum (map (λ t. one_if (has_tone t o)) tones) ≡ one_if (has_signal o)
unfolding signal_tone
one_tone none = ground arith
one_tone (some s) = ground arith

tones-total :
    (cs : List Client)
    → sum (map (count_tone cs) tones) ≡ length (keep (λ c. has_signal c.signal) cs)
tones-total [] = ground arith
tones-total (x ∷ cs) = ground (
  arith,
  tones-total cs,
  one_tone x.signal,
  count_tone-cons excellent x cs 0,
  count_tone-cons good x cs 0,
  count_tone-cons fair x cs 0,
  count_tone-cons weak x cs 0,
  count_tone-cons poor x cs 0,
)

poor-weak : (o : Option ℤ) → has_tone poor o ≡ is_weak o
unfolding signal_tone
poor-weak none = refl
poor-weak (some s) = ground arith

count_tone-weak : (cs : List Client) → count_tone cs poor ≡ length (keep (λ c. is_weak c.signal) cs)
count_tone-weak [] = refl
count_tone-weak (x ∷ cs) = ground (arith, count_tone-weak cs, poor-weak x.signal)

-- The counts of the histogram are, band by band, those of the clients whose signal has the tone of
-- that band, `signalTone` being another chain of tests; its total is the number of clients that have
-- a signal; and the clients of its last band are those that the overview counts as weak.
pub signal_histogram-count_tone :
    (clients : List Client)
    → ((signal_histogram clients).counts ≡ map (count_tone clients) tones)
      × ((signal_histogram clients).total ≡ length (keep (λ c. has_signal c.signal) clients))
      × (count_tone clients poor ≡ weak_count clients)
unfolding signal_histogram weak_count
signal_histogram-count_tone clients =
    let e =
      count_clients-raised clients 0 0 0 0 0
      ∙ five _ _ _ _ _ _ _ _ _ _ (ground arith) (ground arith) (ground arith) (ground arith)
          (ground arith) in
    (e, ap sum e ∙ tones-total clients, count_tone-weak clients)
