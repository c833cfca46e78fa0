-- ===== src/Firewall/Chips.antt =====
-- The counts of the chips against the rows that each chip leaves.
use mathlib.Core.List.{append_assoc}
use tuxwall.Base.{
  drop, ℕ, suc, ◌+◌, ◌≡◌, refl, sym, ap, ◌∙◌, String, Bool, true, false, not, ◌&&◌, ◌||◌, Option,
  none, some, List, [], ◌∷◌, ◌++◌, map, keep, length, every, str_eq, All, All-append, append_nil,
  arith, if-elim, if◌then◌else◌, Bool-cases, inl, inr,
}
use tuxwall.Base.Sort.{sort, insert, All-sort}
use tuxwall.Base.Texts.{str_eq_comm}
use text.Mathlib.TextEquality.{eq_iff}
use tuxwall.Firewall.{
  Rule, none_chip, passes_iface, passes, shown_rules, Count, has_name, raise, add_count,
  count_ifaces, any_count, by_name, Chip, render_fw_iface_chips, chip,
}

abbrev pub count_of : String → List Rule → ℕ
count_of i rules = length (keep (λ r. str_eq r.iface i) rules)

abbrev total : List Count → ℕ
total [] = 0
total (c ∷ cs) = c.n + total cs

abbrev IsName : String → Type 0
IsName i = (str_eq i "" ≡ false) × (str_eq i none_chip ≡ false)

-- What the counts are when the rules of `seen` have been counted.
abbrev IsCounted : List Rule → List Count → Type 0
IsCounted seen cs = All (λ c. (c.n ≡ count_of c.name seen) × IsName c.name) cs

abbrev IsComplete : List Rule → List Count → Type 0
IsComplete seen cs =
    (i : String) → str_eq i "" ≡ false → has_name i cs ≡ false → count_of i seen ≡ 0

count_of-snoc :
    (i : String) (rs : List Rule) (r : Rule)
    → count_of i (rs ++ r ∷ []) ≡ count_of i rs + (if str_eq r.iface i then 1 else 0)
count_of-snoc i [] r = ground arith
count_of-snoc i (q ∷ rs) r = ground (arith, count_of-snoc i rs r)

-- A rule without an interface changes no count.
skipped-IsCounted :
    (seen : List Rule) (r : Rule) (cs : List Count)
    → str_eq r.iface "" ≡ true
    → IsCounted seen cs
    → IsCounted (seen ++ r ∷ []) cs
skipped-IsCounted seen r [] e h = tt
skipped-IsCounted seen r (c ∷ cs) e h = (
  (
    ground (
      arith,
      e,
      h.0,
      count_of-snoc c.name seen r,
      eq_iff r.iface "",
      eq_iff r.iface c.name,
      eq_iff c.name "",
    ),
    h.0.1,
  ),
  skipped-IsCounted seen r cs e h.1,
)

raised-IsCounted :
    (seen : List Rule) (r : Rule) (cs : List Count)
    → IsCounted seen cs
    → IsCounted (seen ++ r ∷ []) (map (raise r.iface) cs)
raised-IsCounted seen r [] h = tt
raised-IsCounted seen r (c ∷ cs) h = (
  if-elim (λ d. (d.n ≡ count_of d.name (seen ++ r ∷ [])) × IsName d.name) (str_eq c.name r.iface)
      (record c { n = c.n + 1 }) c
      (λ e.
        (ground (arith, e, h.0, count_of-snoc c.name seen r, str_eq_comm c.name r.iface), h.0.1))
      (λ e.
        (ground (arith, e, h.0, count_of-snoc c.name seen r, str_eq_comm c.name r.iface), h.0.1)),
  raised-IsCounted seen r cs h.1,
)

kept-IsCounted :
    (seen : List Rule) (r : Rule) (cs : List Count)
    → has_name r.iface cs ≡ false
    → IsCounted seen cs
    → IsCounted (seen ++ r ∷ []) cs
kept-IsCounted seen r [] e h = tt
kept-IsCounted seen r (c ∷ cs) e h = (
  (ground (arith, e, h.0, count_of-snoc c.name seen r, str_eq_comm c.name r.iface), h.0.1),
  kept-IsCounted seen r cs (ground (arith, e)) h.1,
)

has_name-raise : (i j : String) (cs : List Count) → has_name j (map (raise i) cs) ≡ has_name j cs
has_name-raise i j [] = refl
has_name-raise i j (c ∷ cs) = ground (arith, has_name-raise i j cs)

has_name-snoc :
    (j : String) (cs : List Count) (c : Count)
    → has_name j (cs ++ c ∷ []) ≡ (has_name j cs || str_eq c.name j)
has_name-snoc j [] c = ground arith
has_name-snoc j (d ∷ cs) c = ground (arith, has_name-snoc j cs c)

-- No two counts have the same name.
abbrev is_map : List Count → Bool
is_map [] = true
is_map (c ∷ cs) = not (has_name c.name cs) && is_map cs

is_map-raise : (i : String) (cs : List Count) → is_map (map (raise i) cs) ≡ is_map cs
is_map-raise i [] = refl
is_map-raise i (c ∷ cs) = ground (arith, is_map-raise i cs, has_name-raise i c.name cs)

is_map-snoc :
    (cs : List Count) (c : Count)
    → has_name c.name cs ≡ false
    → is_map cs ≡ true
    → is_map (cs ++ c ∷ []) ≡ true
is_map-snoc [] c e h = ground arith
is_map-snoc (d ∷ cs) c e h = ground (
  arith,
  e,
  h,
  has_name-snoc d.name cs c,
  str_eq_comm c.name d.name,
  is_map-snoc cs c (ground (arith, e)) (ground (arith, h)),
)

total-untouched :
    (i : String) (cs : List Count) → has_name i cs ≡ false → total (map (raise i) cs) ≡ total cs
total-untouched i [] e = refl
total-untouched i (c ∷ cs) e = ground (arith, e, total-untouched i cs)

total-raise :
    (i : String) (cs : List Count)
    → is_map cs ≡ true
    → has_name i cs ≡ true
    → total (map (raise i) cs) ≡ total cs + 1
total-raise i [] m e = ground (arith, e)
total-raise i (c ∷ cs) m e = elim (Bool-cases (str_eq c.name i)) [
  | inl s ↦ ground (arith, m, e, s, total-untouched i cs, eq_iff c.name i)
  | inr s ↦ ground (arith, m, e, s, total-raise i cs)
]

total-snoc : (cs : List Count) (c : Count) → total (cs ++ c ∷ []) ≡ total cs + c.n
total-snoc [] c = ground arith
total-snoc (d ∷ cs) c = ground (arith, total-snoc cs c)

-- The counts of `cs` are those of the rules of `seen`.
abbrev IsCountOf : List Rule → List Count → Type 0
IsCountOf seen cs =
    IsCounted seen cs
    × IsComplete seen cs
    × (is_map cs ≡ true)
    × (total cs + any_count seen ≡ length seen)

length-snoc : (rs : List Rule) (r : Rule) → length (rs ++ r ∷ []) ≡ length rs + 1
length-snoc [] r = omega arith
length-snoc (q ∷ rs) r = omega (arith, length-snoc rs r)

skipped-IsCountOf :
    (seen : List Rule) (r : Rule) (cs : List Count)
    → str_eq r.iface "" ≡ true
    → IsCountOf seen cs
    → IsCountOf (seen ++ r ∷ []) cs
skipped-IsCountOf seen r cs e h = (
  skipped-IsCounted seen r cs e h.0,
  λ i ne no. ground (
    arith,
    e,
    ne,
    no,
    h.1 i ne no,
    count_of-snoc i seen r,
    eq_iff r.iface "",
    eq_iff r.iface i,
    eq_iff i "",
  ),
  h.2,
  ground (arith, e, h.3, count_of-snoc "" seen r, length-snoc seen r),
)

added-IsCountOf :
    (seen : List Rule) (r : Rule) (cs : List Count)
    → IsName r.iface
    → IsCountOf seen cs
    → IsCountOf (seen ++ r ∷ []) (add_count r.iface cs)
added-IsCountOf seen r cs n h =
    let new : Count = record { name = r.iface; n = 1 } in
    let any = count_of-snoc "" seen r in
    if-elim (IsCountOf (seen ++ r ∷ [])) (has_name r.iface cs) (map (raise r.iface) cs)
      (cs ++ new ∷ [])
      (λ e. (
        raised-IsCounted seen r cs h.0,
        λ i ne no. ground (
          arith,
          e,
          ne,
          no,
          h.1 i ne,
          has_name-raise r.iface i cs,
          count_of-snoc i seen r,
          eq_iff r.iface i,
        ),
        is_map-raise r.iface cs ∙ h.2,
        ground (arith, n, h.3, total-raise r.iface cs h.2 e, any, length-snoc seen r),
      ))
      (λ e. (
        All-append _ cs (new ∷ []) (kept-IsCounted seen r cs e h.0) (
          (
            ground (arith, h.1 r.iface n.0 e, count_of-snoc r.iface seen r, eq_iff r.iface r.iface),
            n,
          ),
          tt,
        ),
        λ i ne no. ground (arith, ne, no, h.1 i ne, has_name-snoc i cs new, count_of-snoc i seen r),
        is_map-snoc cs new e h.2,
        ground (arith, n, h.3, total-snoc cs new, any, length-snoc seen r),
      ))

-- No interface has the name that stands for the rules without one.
abbrev pub has_no_clash : List Rule → Bool
has_no_clash rules = every (λ r. not (str_eq r.iface none_chip)) rules

count_ifaces-IsCountOf :
    (seen rules : List Rule) (cs : List Count)
    → has_no_clash rules ≡ true
    → IsCountOf seen cs
    → IsCountOf (seen ++ rules) (count_ifaces rules cs)
unfolding count_ifaces
count_ifaces-IsCountOf seen [] cs d h = rw (append_nil seen) h
count_ifaces-IsCountOf seen (r ∷ rules) cs d h =
    let here =
      if-elim (IsCountOf (seen ++ r ∷ [])) (str_eq r.iface "") cs (add_count r.iface cs)
        (λ e. skipped-IsCountOf seen r cs e h)
        (λ e. added-IsCountOf seen r cs (e, ground (arith, d)) h) in
    rw (sym (append_assoc seen (r ∷ []) rules))
      (count_ifaces-IsCountOf (seen ++ r ∷ []) rules _ (ground (arith, d)) here)

total-insert : (c : Count) (cs : List Count) → total (insert by_name c cs) ≡ c.n + total cs
unfolding insert
total-insert c [] = refl
total-insert c (d ∷ cs) = ground (arith, total-insert c cs)

total-sort : (cs : List Count) → total (sort by_name cs) ≡ total cs
unfolding sort
total-sort [] = refl
total-sort (c ∷ cs) = ground (arith, total-insert c (sort by_name cs), total-sort cs)

-- What a chip says against the rows that it leaves, with nothing in the search.
abbrev pub shown_count : Option ℕ → ℕ
shown_count none = 0
shown_count (some n) = n

passes_iface-name : (i : String) (r : Rule) → IsName i → passes_iface i r ≡ str_eq r.iface i
passes_iface-name i r n = ground (arith, n)

passes_iface-none : (r : Rule) → passes_iface none_chip r ≡ str_eq r.iface ""
passes_iface-none r = ground arith

passes_iface-all : (r : Rule) → passes_iface "" r ≡ true
passes_iface-all r = ground arith

and_true : (b : Bool) → (b && true) ≡ b
and_true true = refl
and_true false = refl

-- Two tests that agree on every rule keep the same number of rules.
length-keep_same :
    (p q : Rule → Bool)
    → ((r : Rule) → p r ≡ q r)
    → (rules : List Rule) → length (keep p rules) ≡ length (keep q rules)
length-keep_same p q h [] = refl
length-keep_same p q h (r ∷ rules) = ground (arith, h r, length-keep_same p q h rules)

module _ (lower : List ℕ → List ℕ) where
  abbrev pub rows_under : List Rule → String → ℕ
  rows_under rules value = length (shown_rules lower value [] rules)

  abbrev pub IsRight : List Rule → Chip → Type 0
  IsRight rules c = c.count ≡ some (rows_under rules c.value)

  name-rows : (rules : List Rule) (i : String) → IsName i → count_of i rules ≡ rows_under rules i
  unfolding shown_rules passes
  name-rows rules i n =
      length-keep_same (λ r. str_eq r.iface i) (passes lower i [])
        (λ r. sym (and_true (passes_iface i r) ∙ passes_iface-name i r n)) rules

  none-rows : (rules : List Rule) → any_count rules ≡ rows_under rules none_chip
  unfolding shown_rules passes
  none-rows rules =
      length-keep_same (λ r. str_eq r.iface "") (passes lower none_chip [])
        (λ r. sym (and_true (passes_iface none_chip r) ∙ passes_iface-none r)) rules

  keep_all : (rules : List Rule) → length (keep (λ r. true) rules) ≡ length rules
  keep_all [] = refl
  keep_all (r ∷ rules) = ap suc (keep_all rules)

  all-rows : (rules : List Rule) → rows_under rules "" ≡ length rules
  unfolding shown_rules passes
  all-rows rules =
      length-keep_same (passes lower "" []) (λ r. true)
        (λ r. and_true (passes_iface "" r) ∙ passes_iface-all r) rules
      ∙ keep_all rules

  chips-IsRight :
      (rules : List Rule) (cs : List Count) (f : Count → Chip)
      → ((c : Count) → ((f c).count ≡ some c.n) × ((f c).value ≡ c.name))
      → IsCounted rules cs
      → All (IsRight rules) (map f cs)
  chips-IsRight rules [] f e h = tt
  chips-IsRight rules (c ∷ cs) f e h = (
    (e c).0
        ∙ ap some (h.0.0 ∙ name-rows rules c.name h.0.1)
        ∙ ap (λ v. some (rows_under rules v)) (sym (e c).1),
    chips-IsRight rules cs f e h.1,
  )

abbrev pub sum_shown : List Chip → ℕ
sum_shown [] = 0
sum_shown (c ∷ cs) = shown_count c.count + sum_shown cs

sum_shown-total :
    (cs : List Count) (f : Count → Chip)
    → ((c : Count) → (f c).count ≡ some c.n)
    → sum_shown (map f cs) ≡ total cs
sum_shown-total [] f e = refl
sum_shown-total (c ∷ cs) f e = ground (arith, ap shown_count (e c), sum_shown-total cs f e)

-- If no interface has the name that stands for rules without one: with nothing in the search, the
-- number on each chip but "All" is the number of rows that the table has when the chip is chosen, and
-- together the numbers are the rows of "All". Which chip is chosen changes no number.
pub render_fw_iface_chips-IsRight :
    (lower : List ℕ → List ℕ) (chosen : String) (rules : List Rule)
    → has_no_clash rules ≡ true
    → All (IsRight lower rules) (drop 1 (render_fw_iface_chips chosen rules))
      × (sum_shown (render_fw_iface_chips chosen rules) ≡ rows_under lower rules "")
unfolding render_fw_iface_chips
render_fw_iface_chips-IsRight lower chosen rules d =
    let counts = count_ifaces rules [] in
    let h = count_ifaces-IsCountOf [] rules [] d (tt, λ i ne no. refl, refl, refl) in
    let s = sort by_name counts in
    (
      (
        ap some (none-rows lower rules),
        chips-IsRight lower rules s _ (λ c. (refl, refl)) (All-sort by_name _ counts h.0),
      ),
      omega (
        arith,
        sum_shown-total s (λ c. chip chosen c.name c.name (some c.n)) (λ c. refl),
        total-sort counts,
        h.3,
        all-rows lower rules,
      ),
    )
