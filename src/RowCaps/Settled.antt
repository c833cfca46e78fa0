-- ===== src/RowCaps/Settled.antt =====
-- What a table shows while it waits for no frame.
use tuxwall.Base.{
  ℕ, zero, suc, ◌+◌, ◌-◌, ◌≤◌, ◌≡◌, refl, ap, sym, ◌⊎◌, inl, inr, Bool, true, false, Option, none,
  some, List, [], ◌∷◌, leb, length, take, min, if◌then◌else◌, if-elim, arith, All,
}
use tuxwall.RowCaps.{
  Row, Bar, count_of, Table, cap_for, is_true, is_shown, uncap, cap_rows, apply, click, frame,
  render, animation_end, Event, rendered, framed, clicked, animated, handle, run, attach, toggle,
}

abbrev pub visible : List Row → ℕ
visible [] = 0
visible (r ∷ rs) = if r.capped then visible rs else suc (visible rs)

abbrev pub IsVisible : Row → Type 0
IsVisible r = r.capped ≡ false

-- The bar is there, is hidden if the table is short, and else says how many rows are shown.
abbrev pub Tells : ℕ → ℕ → Bool → Option Bar → Type 0
Tells cap n is_open none = ⊥
Tells cap n is_open (some b) =
    (b.hidden ≡ leb n cap)
    × ((n ≤ cap) ⊎ ((b.pressed ≡ is_open) × (b.count ≡ count_of is_open cap n)))

-- All rows of an expanded table are shown, and the first `cap` of another.
abbrev pub IsSettled : Table → Type 0
IsSettled t =
    (visible t.rows
      ≡ (if is_true t.expanded then length t.rows else min (cap_for t) (length t.rows)))
    × All IsVisible (take (cap_for t) t.rows)
    × Tells (cap_for t) (length t.rows) (is_true t.expanded) t.bar

length-cap_rows : (o : Bool) (cap i : ℕ) (rs : List Row) → length (cap_rows o cap i rs) ≡ length rs
unfolding cap_rows
length-cap_rows o cap i [] = refl
length-cap_rows o cap i (r ∷ rs) = ap suc (length-cap_rows o cap (suc i) rs)

visible-cap_rows :
    (o : Bool) (cap i : ℕ) (rs : List Row)
    → visible (cap_rows o cap i rs) ≡ (if o then length rs else min (cap - i) (length rs))
unfolding cap_rows
visible-cap_rows o cap i [] = ground arith
visible-cap_rows o cap i (r ∷ rs) = ground (arith, visible-cap_rows o cap (suc i) rs)

take-cap_rows :
    (o : Bool) (cap i k : ℕ) (rs : List Row)
    → k + i ≤ cap
    → All IsVisible (take k (cap_rows o cap i rs))
unfolding cap_rows
take-cap_rows o cap i zero rs h = tt
take-cap_rows o cap i (suc k) [] h = tt
take-cap_rows o cap i (suc k) (r ∷ rs) h =
    (ground (arith, h), take-cap_rows o cap (suc i) k rs (omega (arith, h)))

length-uncap : (rs : List Row) → length (uncap rs) ≡ length rs
length-uncap [] = refl
length-uncap (r ∷ rs) = ap suc (length-uncap rs)

visible-uncap : (rs : List Row) → visible (uncap rs) ≡ length rs
visible-uncap [] = refl
visible-uncap (r ∷ rs) = ap suc (visible-uncap rs)

take-uncap : (k : ℕ) (rs : List Row) → All IsVisible (take k (uncap rs))
take-uncap zero rs = tt
take-uncap (suc k) [] = tt
take-uncap (suc k) (r ∷ rs) = (refl, take-uncap k rs)

-- Once the cap is applied the table is settled, whatever it was before.
apply-IsSettled : (t : Table) → IsSettled (apply t)
unfolding apply
apply-IsSettled t =
    let n = length t.rows in
    let cap = cap_for t in
    let o = is_true t.expanded in
    if-elim IsSettled (leb n cap) _ _
      (λ e. (
        ground (arith, visible-uncap t.rows, length-uncap t.rows, e),
        take-uncap cap t.rows,
        (ground (arith, length-uncap t.rows, e), inl (ground (arith, length-uncap t.rows, e))),
      ))
      (λ e. (
        ground (arith, visible-cap_rows o cap 0 t.rows, length-cap_rows o cap 0 t.rows),
        take-cap_rows o cap 0 cap t.rows (omega arith),
        (
          ground (arith, length-cap_rows o cap 0 t.rows, e),
          inr (refl, ap (count_of o cap) (sym (length-cap_rows o cap 0 t.rows))),
        ),
      ))

animation-visible : (i : ℕ) (rs : List Row) → visible (animation_end i rs) ≡ visible rs
unfolding animation_end
animation-visible i [] = refl
animation-visible zero (r ∷ rs) = refl
animation-visible (suc i) (r ∷ rs) = ground (arith, animation-visible i rs)

animation-length : (i : ℕ) (rs : List Row) → length (animation_end i rs) ≡ length rs
unfolding animation_end
animation-length i [] = refl
animation-length zero (r ∷ rs) = refl
animation-length (suc i) (r ∷ rs) = ap suc (animation-length i rs)

animation-take :
    (i k : ℕ) (rs : List Row)
    → All IsVisible (take k rs)
    → All IsVisible (take k (animation_end i rs))
unfolding animation_end
animation-take i zero rs h = tt
animation-take i (suc k) [] h = tt
animation-take zero (suc k) (r ∷ rs) h = h
animation-take (suc i) (suc k) (r ∷ rs) h = (h.0, animation-take i k rs h.1)

animation-IsSettled :
    (i : ℕ) (t : Table) → IsSettled t → IsSettled (record t { rows = animation_end i t.rows })
animation-IsSettled i t h = (
  rw (animation-visible i t.rows, animation-length i t.rows) h.0,
  animation-take i (cap_for t) t.rows h.1,
  rw (animation-length i t.rows) h.2,
)

-- A table that waits for no frame is settled.
abbrev Waits : Table → Type 0
Waits t = (t.scheduled ≡ true) ⊎ IsSettled t

handle-Waits : (e : Event) (t : Table) → Waits t → Waits (handle e t)
unfolding handle render frame click
handle-Waits (rendered n) t h = inl refl
handle-Waits framed t h =
    if-elim Waits t.scheduled _ t (λ e. inr (apply-IsSettled (record t { scheduled = false })))
      (λ e. h)
handle-Waits clicked t h =
    if-elim Waits (is_shown t.bar) _ t (λ e. inr (apply-IsSettled (toggle t))) (λ e. h)
handle-Waits (animated i) t (inl e) = inl e
handle-Waits (animated i) t (inr h) = inr (animation-IsSettled i t h)

run-Waits : (es : List Event) (t : Table) → Waits t → Waits (run es t)
unfolding run
run-Waits [] t h = h
run-Waits (e ∷ es) t h = run-Waits es (handle e t) (handle-Waits e t h)

IsSettled-of_Waits : (t : Table) → Waits t → t.scheduled ≡ false → IsSettled t
IsSettled-of_Waits t (inl e) f = absurd (ground (arith, e, f))
IsSettled-of_Waits t (inr h) f = h

-- However often the rows are written anew, the button is clicked and animations end: a table that
-- waits for no frame shows all of its rows if it was expanded, and else the first of them up to its
-- cap; its bar is hidden exactly where the rows are no more than the cap, and says how many are shown
-- where it is not.
pub run-IsSettled :
    (cap_attr : Option ℕ) (n : ℕ) (es : List Event)
    → (run es (attach cap_attr n)).scheduled ≡ false
    → IsSettled (run es (attach cap_attr n))
unfolding attach
run-IsSettled cap_attr n es e =
    IsSettled-of_Waits (run es (attach cap_attr n)) (run-Waits es (attach cap_attr n) (inl refl)) e
