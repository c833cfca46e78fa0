-- ===== src/Series/Search.antt =====
-- The binary search of `sweepValueAt` against a search from the front.
use tuxwall.Base.{
  ℕ, zero, suc, ◌+◌, ◌-◌, ◌≤◌, ◌<◌, ◌≡◌, refl, sym, ap, Option, none, some, List, [], ◌∷◌, ltb, leb,
  length, get_elem?, if◌then◌else◌, if-elim, arith, All, Option-cases, inl, inr,
}
use tuxwall.Series.{
  Point, Value, nothing, hold, lerp, Span, middle, narrow, search, between, at_span, last_of,
  sweep_value_at,
}

-- Twice as many points cost one round more.
abbrev pub two_to : ℕ → ℕ
two_to zero = 1
two_to (suc k) = two_to k + two_to k

-- The times do not fall.
abbrev pub IsAscending : List Point → Type 0
IsAscending [] = Unit
IsAscending (p ∷ ps) = All (λ q. p.ts ≤ q.ts) ps × IsAscending ps

-- The points around `t`, searched from the front: `p` is before `t`.
abbrev pub linear_from : Point → List Point → ℕ → Value
linear_from p [] t = hold p.v
linear_from p (q ∷ qs) t = if ltb t q.ts then lerp p q t else linear_from q qs t

abbrev pub linear_value_at : List Point → ℕ → Value
linear_value_at [] t = nothing
linear_value_at (p ∷ ps) t = if leb t p.ts then hold p.v else linear_from p ps t

-- The point at an index has a time at `t` or before, or after it.
abbrev pub IsBefore : ℕ → Option Point → Type 0
IsBefore t none = ⊥
IsBefore t (some p) = p.ts ≤ t

abbrev pub IsAfter : ℕ → Option Point → Type 0
IsAfter t none = ⊥
IsAfter t (some p) = t < p.ts

-- What the loop keeps.
abbrev pub IsAround : List Point → ℕ → Span → Type 0
IsAround ps t s =
    (s.lo < s.hi)
    × (s.hi < length ps)
    × IsBefore t (get_elem? ps s.lo)
    × IsAfter t (get_elem? ps s.hi)

-- The loop ended by its test.
abbrev pub EndsAround : List Point → ℕ → Option Span → Type 0
EndsAround ps t none = ⊥
EndsAround ps t (some s) = IsAround ps t s × (s.hi ≡ suc s.lo)

get_elem?-some : (ps : List Point) (i : ℕ) → i < length ps → get_elem? ps i ≡ none → ⊥
get_elem?-some [] i h e = omega (arith, h)
get_elem?-some (p ∷ ps) zero h e = ground (arith, e)
get_elem?-some (p ∷ ps) (suc i) h e = get_elem?-some ps i (omega (arith, h)) e

narrow-IsAround :
    (ps : List Point) (t : ℕ) (s : Span) (p : Point)
    → IsAround ps t s
    → 1 < s.hi - s.lo
    → get_elem? ps (middle s) ≡ some p
    → IsAround ps t (narrow t s p.ts)
narrow-IsAround ps t s p h w e =
    if-elim (IsAround ps t) (leb p.ts t) (record s { lo = middle s }) (record s { hi = middle s })
      (λ c. (omega (arith, w), h.1, rw e (ground (arith, c)), h.3))
      (λ c. (omega (arith, w), omega (arith, h.1, h.0), h.2, rw e (ground (arith, c))))

narrow-half :
    (t : ℕ) (s : Span) (ts k : ℕ)
    → 1 < s.hi - s.lo
    → s.hi - s.lo ≤ k + k
    → (narrow t s ts).hi - (narrow t s ts).lo ≤ k
narrow-half t s ts k w h =
    if-elim (λ r. r.hi - r.lo ≤ k) (leb ts t) (record s { lo = middle s })
      (record s { hi = middle s }) (λ c. omega (arith, w, h)) (λ c. omega (arith, w, h))

-- Between a point at `t` or before and one after it, the loop ends by its test within `k` rounds if
-- the two are at most 2^k apart: at neighbours, of which the one is at `t` or before, the other after
-- it. No element is read that is not there.
pub search-EndsAround :
    (k : ℕ) (ps : List Point) (t : ℕ) (s : Span)
    → IsAround ps t s
    → s.hi - s.lo ≤ two_to k
    → EndsAround ps t (search k ps t s)
unfolding search
search-EndsAround zero ps t s h w =
    if-elim (EndsAround ps t) (ltb 1 (s.hi - s.lo)) none (some s) (λ c. ground (arith, c, w))
      (λ c. (h, omega (arith, w, h.0)))
search-EndsAround (suc k) ps t s h w =
    if-elim (EndsAround ps t) (ltb 1 (s.hi - s.lo)) _ (some s)
      (λ c. elim (Option-cases (get_elem? ps (middle s))) [
        | inl e ↦ absurd (get_elem?-some ps (middle s) (ground (arith, c, h.1)) e)
        | inr (p, e) ↦ rw e (
            search-EndsAround k ps t (narrow t s p.ts)
              (narrow-IsAround ps t s p h (ground (arith, c)) e)
              (narrow-half t s p.ts (two_to k) (ground (arith, c)) w))
      ])
      (λ c. (h, ground (arith, c, h.0)))

ascending-le :
    (q : Point) (qs : List Point) (i : ℕ) (a : Point)
    → IsAscending (q ∷ qs)
    → get_elem? (q ∷ qs) i ≡ some a
    → q.ts ≤ a.ts
ascending-le q qs zero a h e = ground (arith, e)
ascending-le q [] (suc i) a h e = ground (arith, e)
ascending-le q (r ∷ qs) (suc i) a h e = ground (arith, ascending-le r qs i a h.1 e, h.0)

-- Around `t` the points of the loop are those that the search from the front finds.
at-linear :
    (p : Point) (ps : List Point) (t i : ℕ) (a b : Point)
    → IsAscending (p ∷ ps)
    → get_elem? (p ∷ ps) i ≡ some a
    → get_elem? (p ∷ ps) (suc i) ≡ some b
    → a.ts ≤ t
    → t < b.ts
    → linear_from p ps t ≡ lerp a b t
at-linear p [] t i a b h e f l u = ground (arith, f)
at-linear p (q ∷ qs) t zero a b h e f l u = ground (arith, e, f, u)
at-linear p (q ∷ qs) t (suc i) a b h e f l u =
    ground (arith, ascending-le q qs i a h.1 e, at-linear q qs t i a b h.1 e f l u)

two_to-lt : (n : ℕ) → n < two_to n
two_to-lt zero = omega arith
two_to-lt (suc n) = omega (arith, two_to-lt n)

last-get : (p : Point) (ps : List Point) → get_elem? (p ∷ ps) (length ps) ≡ some (last_of p ps)
last-get p [] = refl
last-get p (q ∷ ps) = last-get q ps

linear-last :
    (p : Point) (ps : List Point) (t : ℕ)
    → IsAscending (p ∷ ps)
    → (last_of p ps).ts ≤ t
    → linear_from p ps t ≡ hold (last_of p ps).v
linear-last p [] t h l = refl
linear-last p (q ∷ qs) t h l = ground (
  arith,
  ascending-le q qs (length qs) (last_of q qs) h.1 (last-get q qs),
  linear-last q qs t h.1 l,
)

between-linear :
    (p : Point) (ps : List Point) (t i : ℕ) (oa ob : Option Point)
    → IsAscending (p ∷ ps)
    → get_elem? (p ∷ ps) i ≡ oa
    → get_elem? (p ∷ ps) (suc i) ≡ ob
    → IsBefore t oa
    → IsAfter t ob
    → between oa ob t ≡ linear_from p ps t
between-linear p ps t i none ob h e f l u = elim l [ ]
between-linear p ps t i (some a) none h e f l u = elim u [ ]
between-linear p ps t i (some a) (some b) h e f l u = sym (at-linear p ps t i a b h e f l u)

at_span-linear :
    (p : Point) (ps : List Point) (t : ℕ) (o : Option Span)
    → IsAscending (p ∷ ps)
    → EndsAround (p ∷ ps) t o
    → at_span (p ∷ ps) t o ≡ linear_from p ps t
at_span-linear p ps t none h r = elim r [ ]
at_span-linear p ps t (some s) h r =
    between-linear p ps t s.lo _ _ h refl (ap (get_elem? (p ∷ ps)) (sym r.1)) r.0.2 r.0.3

first-IsAround :
    (p : Point) (ps : List Point) (t : ℕ)
    → p.ts ≤ t
    → t < (last_of p ps).ts
    → IsAround (p ∷ ps) t (record { lo = 0; hi = length ps })
first-IsAround p [] t l u = absurd (omega (arith, l, u))
first-IsAround p (q ∷ qs) t l u = (omega arith, omega arith, l, rw (last-get q qs) u)

-- On points whose times do not fall the value that the binary search leads to is the one that a
-- search from the front finds: the edges are held, and between two points it is theirs.
pub sweep_value_at-linear :
    (ps : List Point) (t : ℕ) → IsAscending ps → sweep_value_at ps t ≡ linear_value_at ps t
unfolding sweep_value_at
sweep_value_at-linear [] t h = refl
sweep_value_at-linear (p ∷ ps) t h =
    if-elim (λ v. v ≡ linear_value_at (p ∷ ps) t) (leb t p.ts) (hold p.v) _ (λ c. rw c refl)
      (λ c. rw c (
        if-elim (λ v. v ≡ linear_from p ps t) (leb (last_of p ps).ts t) (hold (last_of p ps).v) _
          (λ d. sym (linear-last p ps t h (ground (arith, d))))
          (λ d. at_span-linear p ps t _ h (
            search-EndsAround (length (p ∷ ps)) (p ∷ ps) t (record { lo = 0; hi = length ps })
              (first-IsAround p ps t (ground (arith, c)) (ground (arith, d)))
              (omega (arith, two_to-lt (length (p ∷ ps))))))))
