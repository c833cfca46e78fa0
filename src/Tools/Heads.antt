-- ===== src/Tools/Heads.antt =====
-- The heads of the groups against their rows, and the keys of the rows.
use tuxwall.Base.{
  ℕ, ◌≡◌, refl, ap, sym, ◌∙◌, String, true, false, ◌⊎◌, inl, inr, List, [], ◌∷◌, ◌++◌, map, str_eq,
  All, arith, if-elim, Bool-cases,
}
use tuxwall.Base.Texts.{str_eq_refl}
use tuxwall.Tools.{
  Part, Result, no_result, diff, failure, output, result_of, Row, Group, head_of, in_group,
  entry_of, entries, has_key, on_key, group_of, updated, refreshed, flip_out, with_result,
}

abbrev pub keys : List Row → List String
keys rows = map (λ r. r.key) rows

-- A change of rows that leaves their keys and groups.
abbrev pub IsMild : (Row → Row) → Type 0
IsMild f = (r : Row) → ((f r).key ≡ r.key) × ((f r).group ≡ r.group)

with_result-IsMild : (o : Result) → IsMild (with_result o)
with_result-IsMild no_result r = (refl, refl)
with_result-IsMild (diff t) r = (refl, refl)
with_result-IsMild (failure t) r = (refl, refl)
with_result-IsMild (output t) r = (refl, refl)

pub updated-IsMild : (p : Part) → IsMild (updated p)
updated-IsMild p r = with_result-IsMild (result_of p) _

on_key-hit :
    (k : String) (f : Row → Row) (r : Row) (rs : List Row)
    → str_eq r.key k ≡ true
    → on_key k f (r ∷ rs) ≡ f r ∷ rs
unfolding on_key
on_key-hit k f r rs e =
    if-elim (λ l. l ≡ f r ∷ rs) (str_eq r.key k) (f r ∷ rs) _ (λ c. refl)
      (λ c. ground (arith, e, c))

on_key-miss :
    (k : String) (f : Row → Row) (r : Row) (rs : List Row)
    → str_eq r.key k ≡ false
    → on_key k f (r ∷ rs) ≡ r ∷ on_key k f rs
unfolding on_key
on_key-miss k f r rs e =
    if-elim (λ l. l ≡ r ∷ on_key k f rs) (str_eq r.key k) _ _ (λ c. ground (arith, e, c))
      (λ c. refl)

group_of-hit :
    (k : String) (r : Row) (rs : List Row) → str_eq r.key k ≡ true → group_of k (r ∷ rs) ≡ r.group
unfolding group_of
group_of-hit k r rs e =
    if-elim (λ o. o ≡ r.group) (str_eq r.key k) r.group _ (λ c. refl) (λ c. ground (arith, e, c))

group_of-miss :
    (k : String) (r : Row) (rs : List Row)
    → str_eq r.key k ≡ false
    → group_of k (r ∷ rs) ≡ group_of k rs
unfolding group_of
group_of-miss k r rs e =
    if-elim (λ o. o ≡ group_of k rs) (str_eq r.key k) _ _ (λ c. ground (arith, e, c)) (λ c. refl)

pub keys-on_key :
    (k : String) (f : Row → Row) (rows : List Row) → IsMild f → keys (on_key k f rows) ≡ keys rows
unfolding on_key
keys-on_key k f [] m = refl
keys-on_key k f (r ∷ rs) m =
    if-elim (λ l. keys l ≡ r.key ∷ keys rs) (str_eq r.key k) (f r ∷ rs) (r ∷ on_key k f rs)
      (λ e. ap (λ l. l ∷ keys rs) (m r).0) (λ e. ap (r.key ∷◌) (keys-on_key k f rs m))

group_of-on_key :
    (k : String) (f : Row → Row) (rows : List Row)
    → IsMild f
    → group_of k (on_key k f rows) ≡ group_of k rows
unfolding on_key
group_of-on_key k f [] m = refl
group_of-on_key k f (r ∷ rs) m = elim (Bool-cases (str_eq r.key k)) [
  | inl e ↦
      ap (group_of k) (on_key-hit k f r rs e)
      ∙ group_of-hit k (f r) rs (ap (λ x. str_eq x k) (m r).0 ∙ e)
      ∙ (m r).1
      ∙ sym (group_of-hit k r rs e)
  | inr e ↦
      ap (group_of k) (on_key-miss k f r rs e)
      ∙ group_of-miss k r (on_key k f rs) e
      ∙ group_of-on_key k f rs m
      ∙ sym (group_of-miss k r rs e)
]

entries-skip :
    (a : ℕ) (r : Row) (rs : List Row)
    → in_group a r.group ≡ false
    → entries a (r ∷ rs) ≡ entries a rs
entries-skip a r rs e =
    if-elim (λ l. map entry_of l ≡ entries a rs) (in_group a r.group) _ _
      (λ c. ground (arith, e, c)) (λ c. refl)

entries-take :
    (a : ℕ) (r : Row) (rs : List Row)
    → in_group a r.group ≡ true
    → entries a (r ∷ rs) ≡ entry_of r ∷ entries a rs
entries-take a r rs e =
    if-elim (λ l. map entry_of l ≡ entry_of r ∷ entries a rs) (in_group a r.group) _ _ (λ c. refl)
      (λ c. ground (arith, e, c))

entries-behind :
    (a : ℕ) (r : Row) (rs ss : List Row)
    → entries a rs ≡ entries a ss
    → entries a (r ∷ rs) ≡ entries a (r ∷ ss)
entries-behind a r rs ss h = elim (Bool-cases (in_group a r.group)) [
  | inl e ↦ entries-take a r rs e ∙ ap (entry_of r ∷◌) h ∙ sym (entries-take a r ss e)
  | inr e ↦ entries-skip a r rs e ∙ h ∙ sym (entries-skip a r ss e)
]

-- The entries of a group that the row with the key does not belong to.
entries-on_key :
    (k : String) (f : Row → Row) (a : ℕ) (rows : List Row)
    → IsMild f
    → in_group a (group_of k rows) ≡ false
    → entries a (on_key k f rows) ≡ entries a rows
unfolding on_key
entries-on_key k f a [] m h = refl
entries-on_key k f a (r ∷ rs) m h = elim (Bool-cases (str_eq r.key k)) [
  | inl e ↦
      let g = ap (in_group a) (sym (group_of-hit k r rs e)) ∙ h in
      ap (entries a) (on_key-hit k f r rs e)
      ∙ entries-skip a (f r) rs (ap (in_group a) (m r).1 ∙ g)
      ∙ sym (entries-skip a r rs g)
  | inr e ↦
      ap (entries a) (on_key-miss k f r rs e)
      ∙ entries-behind a r (on_key k f rs) rs
          (entries-on_key k f a rs m (ap (in_group a) (sym (group_of-miss k r rs e)) ∙ h))
]

pub entries-flip_out :
    (k : String) (a : ℕ) (rows : List Row) → entries a (on_key k flip_out rows) ≡ entries a rows
unfolding on_key
entries-flip_out k a [] = refl
entries-flip_out k a (r ∷ rs) = elim (Bool-cases (str_eq r.key k)) [
  | inl e ↦ ap (entries a) (on_key-hit k flip_out r rs e) ∙ elim (Bool-cases (in_group a r.group)) [
    | inl g ↦ entries-take a (flip_out r) rs g ∙ sym (entries-take a r rs g)
    | inr g ↦ entries-skip a (flip_out r) rs g ∙ sym (entries-skip a r rs g)
  ]
  | inr e ↦
      ap (entries a) (on_key-miss k flip_out r rs e)
      ∙ entries-behind a r (on_key k flip_out rs) rs (entries-flip_out k a rs)
]

pub entries-snoc :
    (a : ℕ) (rows : List Row) (r : Row)
    → in_group a r.group ≡ false
    → entries a (rows ++ r ∷ []) ≡ entries a rows
entries-snoc a [] r e = entries-skip a r [] e
entries-snoc a (q ∷ rows) r e = entries-behind a q (rows ++ r ∷ []) rows (entries-snoc a rows r e)

pub group_of-snoc :
    (rows : List Row) (r : Row)
    → has_key r.key rows ≡ false
    → group_of r.key (rows ++ r ∷ []) ≡ r.group
group_of-snoc [] r h = group_of-hit r.key r [] (str_eq_refl r.key)
group_of-snoc (q ∷ rows) r h =
    group_of-miss r.key q (rows ++ r ∷ []) (ground (arith, h))
    ∙ group_of-snoc rows r (ground (arith, h))

abbrev pub IsFresh : List Row → Group → Type 0
IsFresh rows g = g.head ≡ head_of (entries g.anchor rows)

-- The head is that of the entries, or the row with the key `k` is one of them.
abbrev pub IsDueOrFresh : String → List Row → Group → Type 0
IsDueOrFresh k rows g = (in_group g.anchor (group_of k rows) ≡ true) ⊎ IsFresh rows g

refreshed-IsFresh :
    (p : Part) (rows : List Row) (g : Group)
    → IsDueOrFresh p.key rows g
    → IsFresh (on_key p.key (updated p) rows) (
        refreshed
          (on_key p.key (updated p) rows)
          (group_of p.key (on_key p.key (updated p) rows))
          g)
refreshed-IsFresh p rows g h =
    let after = on_key p.key (updated p) rows in
    let same = group_of-on_key p.key (updated p) rows (updated-IsMild p) in
    if-elim (IsFresh after) (in_group g.anchor (group_of p.key after)) _ g (λ e. refl)
      (λ e.
        let off = ap (in_group g.anchor) (sym same) ∙ e in
        elim h [
          | inl due ↦ ground (arith, due, off)
          | inr fresh ↦
              fresh
              ∙ ap head_of
                  (sym (entries-on_key p.key (updated p) g.anchor rows (updated-IsMild p) off))
        ])

pub updates-IsFresh :
    (p : Part) (rows : List Row) (gs : List Group)
    → All (IsDueOrFresh p.key rows) gs
    → All (IsFresh (on_key p.key (updated p) rows)) (
        map
          (refreshed
            (on_key p.key (updated p) rows)
            (group_of p.key (on_key p.key (updated p) rows)))
          gs)
updates-IsFresh p rows [] h = tt
updates-IsFresh p rows (g ∷ gs) h = (refreshed-IsFresh p rows g h.0, updates-IsFresh p rows gs h.1)
