-- ===== src/Tools/Runs.antt =====
-- What holds of the tool calls on the screen, whatever happens.
use tuxwall.Base.{
  ℕ, ◌≡◌, refl, ap, sym, ◌∙◌, String, false, inl, inr, Option, none, some, List, [], ◌∷◌, ◌++◌, map,
  any, ◌==◌, All, All-append, All-imp, arith, if-elim, Bool-cases,
}
use tuxwall.Base.Texts.{Distinct, Distinct-snoc, contains}
use tuxwall.Tools.{
  Part, Row, Group, Screen, in_group, has_key, updated, new_row, new_group, head_of, group_for,
  tool_update, added, tool_row, flip_out, flip_body, Event, part_came, row_clicked, head_clicked,
  cleared, empty, handle, run,
}
use tuxwall.Tools.Heads.{
  keys, IsFresh, IsDueOrFresh, updated-IsMild, keys-on_key, updates-IsFresh, entries-flip_out,
  entries-snoc, group_of-snoc,
}

-- No two rows are for the same call, and each head says what its entries say.
abbrev pub IsSound : Screen → Type 0
IsSound s = Distinct (keys s.rows) × All (IsFresh s.rows) s.groups

contains-keys : (rows : List Row) (k : String) → contains (keys rows) k ≡ has_key k rows
contains-keys [] k = refl
contains-keys (r ∷ rows) k = ground (arith, contains-keys rows k)

keys-snoc : (rows : List Row) (r : Row) → keys (rows ++ r ∷ []) ≡ keys rows ++ r.key ∷ []
keys-snoc [] r = refl
keys-snoc (q ∷ rows) r = ap (q.key ∷◌) (keys-snoc rows r)

-- A row is added that the groups of `gs` do not know, or belong to.
snoc-IsDueOrFresh :
    (rows : List Row) (r : Row) (gs : List Group)
    → has_key r.key rows ≡ false
    → All (IsFresh rows) gs
    → All (IsDueOrFresh r.key (rows ++ r ∷ [])) gs
snoc-IsDueOrFresh rows r [] n h = tt
snoc-IsDueOrFresh rows r (g ∷ gs) n h = (
  elim (Bool-cases (in_group g.anchor r.group)) [
    | inl e ↦ inl (ap (in_group g.anchor) (group_of-snoc rows r n) ∙ e)
    | inr e ↦ inr (h.0 ∙ ap head_of (sym (entries-snoc g.anchor rows r e)))
  ],
  snoc-IsDueOrFresh rows r gs n h.1,
)

group_for-IsDueOrFresh :
    (rows : List Row) (r : Row) (o : Option ℕ) (gs : List Group)
    → r.group ≡ o
    → has_key r.key rows ≡ false
    → All (IsFresh rows) gs
    → All (IsDueOrFresh r.key (rows ++ r ∷ [])) (group_for o gs)
group_for-IsDueOrFresh rows r none gs o n h = snoc-IsDueOrFresh rows r gs n h
group_for-IsDueOrFresh rows r (some a) gs o n h =
    let old = snoc-IsDueOrFresh rows r gs n h in
    if-elim (All (IsDueOrFresh r.key (rows ++ r ∷ []))) (any (λ g. g.anchor == a) gs) gs
      (gs ++ new_group a ∷ []) (λ e. old)
      (λ e.
        All-append _ gs (new_group a ∷ []) old
          (inl (ap (in_group a) (group_of-snoc rows r n ∙ o) ∙ ground arith), tt))

added-IsDueOrFresh :
    (p : Part) (anchor : Option ℕ) (s : Screen)
    → IsSound s
    → Distinct (keys (added p anchor s).rows)
      × All (IsDueOrFresh p.key (added p anchor s).rows) (added p anchor s).groups
added-IsDueOrFresh p anchor s h =
    if-elim (λ t. Distinct (keys t.rows) × All (IsDueOrFresh p.key t.rows) t.groups)
      (has_key p.key s.rows) s _ (λ e. (h.0, All-imp _ _ (λ g f. inr f) s.groups h.1))
      (λ e. (
        rw (keys-snoc s.rows (new_row p anchor))
            (Distinct-snoc (keys s.rows) p.key (contains-keys s.rows p.key ∙ e) h.0),
        group_for-IsDueOrFresh s.rows (new_row p anchor) anchor s.groups refl e h.1,
      ))

tool_row-IsSound :
    (p : Part) (anchor : Option ℕ) (s : Screen) → IsSound s → IsSound (tool_row p anchor s)
unfolding tool_row tool_update
tool_row-IsSound p anchor s h =
    let t = added p anchor s in
    let k = added-IsDueOrFresh p anchor s h in
    (
      rw (keys-on_key p.key (updated p) t.rows (updated-IsMild p)) k.0,
      updates-IsFresh p t.rows t.groups k.1,
    )

flip_body-IsFresh :
    (a : ℕ) (rows : List Row) (gs : List Group)
    → All (IsFresh rows) gs
    → All (IsFresh rows) (map (flip_body a) gs)
flip_body-IsFresh a rows [] h = tt
flip_body-IsFresh a rows (g ∷ gs) h = (
  if-elim (IsFresh rows) (g.anchor == a) _ g (λ e. h.0) (λ e. h.0),
  flip_body-IsFresh a rows gs h.1,
)

handle-IsSound : (e : Event) (s : Screen) → IsSound s → IsSound (handle e s)
unfolding handle
handle-IsSound (part_came p anchor) s h = tool_row-IsSound p anchor s h
handle-IsSound (row_clicked k) s h = (
  rw (keys-on_key k flip_out s.rows (λ r. (refl, refl))) h.0,
  All-imp _ _ (λ g f. f ∙ ap head_of (sym (entries-flip_out k g.anchor s.rows))) s.groups h.1,
)
handle-IsSound (head_clicked a) s h = (h.0, flip_body-IsFresh a s.rows s.groups h.1)
handle-IsSound cleared s h = (tt, tt)

run_from-IsSound : (es : List Event) (s : Screen) → IsSound s → IsSound (run es s)
unfolding run
run_from-IsSound [] s h = h
run_from-IsSound (e ∷ es) s h = run_from-IsSound es (handle e s) (handle-IsSound e s h)

-- Whatever parts come, in whatever order and for whatever messages, and whatever is clicked and
-- cleared: no two rows are for the same call, and the head of every group, its count of calls, its
-- names and its state, is what its entries make of it as they are.
pub run-IsSound : (es : List Event) → IsSound (run es empty)
run-IsSound es = run_from-IsSound es empty (tt, tt)
