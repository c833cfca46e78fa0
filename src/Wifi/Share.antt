-- ===== src/Wifi/Share.antt =====
-- The rows of the chart of clients by access point, against the number of clients.
use mathlib.Core.List.{Perm}
use mathlib.Core.List.Perm
use mathlib.Core.Path.{subst}
use tuxwall.Base.{
  ap, append_nil, ℕ, ◌+◌, ◌-◌, ◌≡◌, refl, sym, ◌∙◌, String, Bool, true, false, not, ◌&&◌, Option,
  none, some, List, [], ◌∷◌, ◌++◌, any, every, map, keep, length, ltb, eq_iff, arith, if-elim,
  Bool-cases, inl, inr, if◌then◌else◌,
}
use tuxwall.Base.Sort.{sort, insert, sort-perm}
use tuxwall.Wifi.Signal.{Client, Ap, Row, same_text, row_of, fewer, ap_rows, mapped, ap_chart_rows}

-- No two access points have the same name.
abbrev pub distinct_names : List Ap → Bool
distinct_names [] = true
distinct_names (a ∷ aps) = every (λ b. not (same_text a.name b.name)) aps && distinct_names aps

abbrev one_if : Bool → ℕ
one_if b = if b then 1 else 0

same_text-join :
    (o p q : Option String) → same_text o p ≡ true → same_text o q ≡ true → same_text p q ≡ true
same_text-join none none none h k = refl
same_text-join none none (some c) h k = k
same_text-join none (some b) q h k = ground (arith, h)
same_text-join (some a) none q h k = ground (arith, h)
same_text-join (some a) (some b) none h k = k
same_text-join (some a) (some b) (some c) h k =
    (eq_iff b c).1 (sym ((eq_iff a b).0 h) ∙ (eq_iff a c).0 k)

-- An access point that a client belongs to, and others that have not the name of it.
apart-any :
    (o : Option String) (a : Ap) (aps : List Ap)
    → same_text o a.name ≡ true
    → every (λ b. not (same_text a.name b.name)) aps ≡ true
    → any (λ b. same_text o b.name) aps ≡ false
apart-any o a [] h d = refl
apart-any o a (b ∷ bs) h d = elim (Bool-cases (same_text o b.name)) [
  | inl e ↦ ground (arith, d, same_text-join o a.name b.name h e)
  | inr e ↦ ground (arith, e, apart-any o a bs h (ground (arith, d)))
]

matches : Option String → List Ap → ℕ
matches o [] = 0
matches o (a ∷ aps) = one_if (same_text o a.name) + matches o aps

matches-any :
    (o : Option String) (aps : List Ap)
    → distinct_names aps ≡ true
    → matches o aps ≡ one_if (any (λ a. same_text o a.name) aps)
unfolding matches
matches-any o [] d = refl
matches-any o (a ∷ aps) d = elim (Bool-cases (same_text o a.name)) [
  | inl e ↦
      ground (
        arith,
        e,
        d,
        matches-any o aps (ground (arith, d)),
        apart-any o a aps e (ground (arith, d)),
      )
  | inr e ↦ ground (arith, e, matches-any o aps (ground (arith, d)))
]

abbrev pub nobodys : List Ap → List Client → ℕ
nobodys aps cs = length (keep (λ c. not (any (λ a. same_text c.ap a.name) aps)) cs)

rows-cons :
    (aps : List Ap) (c : Client) (cs : List Client)
    → mapped (map (row_of (c ∷ cs)) aps) ≡ matches c.ap aps + mapped (map (row_of cs) aps)
unfolding matches
rows-cons [] c cs = refl
rows-cons (a ∷ aps) c cs = ground (arith, rows-cons aps c cs)

rows-no_clients : (aps : List Ap) → mapped (map (row_of []) aps) ≡ 0
rows-no_clients [] = refl
rows-no_clients (a ∷ aps) = ground (arith, rows-no_clients aps)

rows-nobodys :
    (aps : List Ap) (cs : List Client)
    → distinct_names aps ≡ true
    → mapped (map (row_of cs) aps) + nobodys aps cs ≡ length cs
rows-nobodys aps [] d = ground (arith, rows-no_clients aps)
rows-nobodys aps (c ∷ cs) d =
    ground (arith, rows-cons aps c cs, rows-nobodys aps cs d, matches-any c.ap aps d)

mapped-insert : (r : Row) (rs : List Row) → mapped (insert fewer r rs) ≡ r.n + mapped rs
unfolding insert
mapped-insert r [] = refl
mapped-insert r (x ∷ rs) = ground (arith, mapped-insert r rs)

mapped-sort : (rs : List Row) → mapped (sort fewer rs) ≡ mapped rs
unfolding sort
mapped-sort [] = refl
mapped-sort (r ∷ rs) = ground (arith, mapped-insert r (sort fewer rs), mapped-sort rs)

mapped-keep : (rs : List Row) → mapped (keep (λ r. ltb 0 r.n) rs) ≡ mapped rs
mapped-keep [] = refl
mapped-keep (r ∷ rs) = ground (arith, mapped-keep rs)

mapped-snoc : (rs : List Row) (r : Row) → mapped (rs ++ r ∷ []) ≡ mapped rs + r.n
mapped-snoc [] r = ground arith
mapped-snoc (x ∷ rs) r = ground (arith, mapped-snoc rs r)

-- The row of the clients that belong to no access point.
abbrev pub unassigned : List Ap → List Client → Row
unassigned aps clients = record { name = "Unassigned"; n = nobodys aps clients }

-- The rows are those of the access points that have a client, and that of the unassigned if there is
-- one, in some order; and together they count as many clients as there are.
abbrev pub IsChart : List Ap → List Client → List Row → Type 0
IsChart aps clients rows =
    Perm rows (keep (λ r. ltb 0 r.n) (map (row_of clients) aps ++ unassigned aps clients ∷ []))
    × (mapped rows ≡ length clients)

keep-snoc :
    (rs : List Row) (u : Row)
    → keep (λ r. ltb 0 r.n) (rs ++ u ∷ [])
      ≡ keep (λ r. ltb 0 r.n) rs ++ (if ltb 0 u.n then u ∷ [] else [])
keep-snoc [] u = refl
keep-snoc (r ∷ rs) u = elim (Bool-cases (ltb 0 r.n)) [
  | inl e ↦ rw e (ap (r ∷◌) (keep-snoc rs u))
  | inr e ↦ rw e (keep-snoc rs u)
]

snoc-perm : (xs ys : List Row) (u : Row) → Perm xs ys → Perm (xs ++ u ∷ []) (ys ++ u ∷ [])
snoc-perm xs ys u h = Perm.append_right (u ∷ []) h

-- If no two access points have the same name: the rows of the chart are, in some order, one for each
-- access point that has a client, with the number of its clients, and one for the clients that belong
-- to none, if there are any; and together they count every client exactly once.
pub ap_chart_rows-IsChart :
    (aps : List Ap) (clients : List Client)
    → distinct_names aps ≡ true
    → IsChart aps clients (ap_chart_rows aps clients)
unfolding ap_chart_rows
ap_chart_rows-IsChart aps clients d =
    let rows = ap_rows aps clients in
    let own = map (row_of clients) aps in
    let u = unassigned aps clients in
    let e = mapped-sort (keep (λ r. ltb 0 r.n) own) ∙ mapped-keep own in
    let all = rows-nobodys aps clients d in
    let perm : Perm rows (keep (λ r. ltb 0 r.n) own) =
      sort-perm fewer (keep (λ r. ltb 0 r.n) own) in
    let rest : Row = record { name = "Unassigned"; n = length clients - mapped rows } in
    if-elim (IsChart aps clients) (ltb (mapped rows) (length clients)) (rows ++ rest ∷ []) rows
      (λ l.
        let n : rest.n ≡ u.n = omega (arith, e, all) in
        let more : ltb 0 u.n ≡ true = ground (arith, e, all, l) in
        (
          subst (Perm (rows ++ rest ∷ []))
              (ap (λ k. keep (λ r. ltb 0 r.n) own ++ record { name = "Unassigned"; n = k } ∷ []) n
                ∙ sym (keep-snoc own u ∙ rw more refl))
              (snoc-perm rows (keep (λ r. ltb 0 r.n) own) rest perm),
          ground (arith, mapped-snoc rows rest, l),
        ))
      (λ l.
        let none_left : ltb 0 u.n ≡ false = ground (arith, e, all, l) in
        (
          subst (Perm rows)
              (sym (keep-snoc own u ∙ rw none_left (append_nil (keep (λ r. ltb 0 r.n) own)))) perm,
          ground (arith, e, all, l),
        ))
