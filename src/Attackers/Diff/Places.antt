-- ===== src/Attackers/Diff/Places.antt =====
-- Where one round of the refresh puts a row: behind the rows already in order, the others keeping
-- their order.
use tuxwall.Base.{
  ℕ, zero, suc, ◌≡◌, refl, ap, ◌∙◌, String, false, Option, none, some, List, [], ◌∷◌, ◌++◌, map,
  str_eq, if◌then◌else◌, arith, length, Bool-cases, inl, inr, ◌≢◌, or-eq-false,
}
use tuxwall.Base.Texts.{contains}
use tuxwall.Attackers.{Attacker, Scene, Row, build_row, update_row}
use tuxwall.Attackers.Diff.{
  Node, row, placeholder, row_ips, row_of, index_of, insert_at, remove_at, set_at, move, put, place,
}

-- What is left when the first row with the address is taken out.
abbrev pub without : String → List Node → List Node
without ip [] = []
without ip (placeholder ∷ ns) = placeholder ∷ without ip ns
without ip (row r ∷ ns) = if str_eq r.ip ip then ns else row r ∷ without ip ns

-- The row that the table shows for an entry: a new one, or the one that was there, updated.
abbrev pub shown : Scene → String → Attacker → Option Row → Row
shown sc sev e none = build_row sc sev e
shown sc sev e (some r) = update_row sc sev e r

remove_at-index_of : (ip : String) (ns : List Node) → remove_at (index_of ip ns) ns ≡ without ip ns
unfolding index_of remove_at
remove_at-index_of ip [] = refl
remove_at-index_of ip (placeholder ∷ ns) = ap (placeholder ∷◌) (remove_at-index_of ip ns)
remove_at-index_of ip (row r ∷ ns) = elim (Bool-cases (str_eq r.ip ip)) [
  | inl e ↦ rw e
  | inr e ↦ rw e (ap (row r ∷◌) (remove_at-index_of ip ns))
]

set_at-eq :
    (j : ℕ) (n : Node) (ns : List Node) → j ≡ 0 → (ns ≢ []) → set_at j n ns ≡ n ∷ remove_at j ns
unfolding set_at remove_at
set_at-eq zero n [] e h = absurd (h refl)
set_at-eq zero n (m ∷ ns) e h = refl
set_at-eq (suc j) n ns e h = absurd (omega arith)

insert_at-zero : (n : Node) (ns : List Node) → insert_at 0 n ns ≡ n ∷ ns
unfolding insert_at
insert_at-zero n [] = refl
insert_at-zero n (m ∷ ns) = refl

-- At the front: the row comes first, and the rest loses it.
move-front : (j : ℕ) (n : Node) (ns : List Node) → (ns ≢ []) → move j 0 n ns ≡ n ∷ remove_at j ns
unfolding move
move-front zero n ns h = set_at-eq 0 n ns refl h
move-front (suc j) n ns h = ground (arith, insert_at-zero n (remove_at (suc j) ns))

move-suc :
    (j k : ℕ) (n m : Node) (ns : List Node) → move (suc j) (suc k) n (m ∷ ns) ≡ m ∷ move j k n ns
unfolding move insert_at remove_at set_at
move-suc j zero n m ns = ground arith
move-suc j (suc k) n m ns = ground arith

row_of-ne : (ip : String) (ns : List Node) {r : Row} → row_of ip ns ≡ some r → ns ≢ []
row_of-ne ip [] h = cc
row_of-ne ip (n ∷ ns) h = cc

put-front :
    (sc : Scene) (sev : String) (e : Attacker) (ns : List Node) (o : Option Row)
    → row_of e.ip ns ≡ o
    → put sc sev 0 e ns o
      ≡ row (shown sc sev e o) ∷ (elim o [ none ↦ ns | some r ↦ without e.ip ns ])
unfolding put
put-front sc sev e ns none h = insert_at-zero _ ns
put-front sc sev e ns (some r) h = rw (move-front _ _ ns (row_of-ne e.ip ns h), remove_at-index_of)

without-none : (ip : String) (ns : List Node) → row_of ip ns ≡ none → without ip ns ≡ ns
without-none ip [] h = refl
without-none ip (placeholder ∷ ns) h = ap (placeholder ∷◌) (without-none ip ns h)
without-none ip (row r ∷ ns) h = ground (arith, without-none ip ns)

-- At the front: the entry's row comes first, and the rest loses it.
pub place-front :
    (sc : Scene) (sev : String) (e : Attacker) (ns : List Node)
    → place sc sev 0 e ns ≡ row (shown sc sev e (row_of e.ip ns)) ∷ without e.ip ns
unfolding place
place-front sc sev e ns = go (row_of e.ip ns) refl
  where
    go :
        (o : Option Row)
        → row_of e.ip ns ≡ o
        → put sc sev 0 e ns o ≡ row (shown sc sev e o) ∷ without e.ip ns
    go none h = rw (without-none e.ip ns h) (put-front sc sev e ns none h)
    go (some r) h = put-front sc sev e ns (some r) h

put-cons :
    (sc : Scene) (sev : String) (k : ℕ) (e : Attacker) (r : Row) (ns : List Node) (o : Option Row)
    → str_eq r.ip e.ip ≡ false
    → put sc sev (suc k) e (row r ∷ ns) o ≡ row r ∷ put sc sev k e ns o
unfolding put insert_at index_of
put-cons sc sev k e r ns none h = refl
put-cons sc sev k e r ns (some x) h = rw h (move-suc _ k _ _ ns)

-- Behind a row with another address it is as without that row.
pub place-cons :
    (sc : Scene) (sev : String) (k : ℕ) (e : Attacker) (r : Row) (ns : List Node)
    → str_eq r.ip e.ip ≡ false
    → place sc sev (suc k) e (row r ∷ ns) ≡ row r ∷ place sc sev k e ns
unfolding place
place-cons sc sev k e r ns h = rw h (put-cons sc sev k e r ns (row_of e.ip ns) h)

-- Behind the rows that are in order already.
pub place-append :
    (sc : Scene) (sev : String) (e : Attacker) (done : List Row) (ns : List Node)
    → contains (row_ips done) e.ip ≡ false
    → place sc sev (length done) e (map row done ++ ns)
      ≡ map row done ++ row (shown sc sev e (row_of e.ip ns)) ∷ without e.ip ns
place-append sc sev e [] ns h = place-front sc sev e ns
place-append sc sev e (r ∷ rs) ns h =
    let (other, rest) = or-eq-false _ _ h in
    place-cons sc sev (length rs) e r (map row rs ++ ns) other
    ∙ ap (row r ∷◌) (place-append sc sev e rs ns rest)
