-- ===== src/RowCaps.antt =====
-- www/scripts/dashboard.js: how many rows of a long table are shown, the last but one script of the
-- file: `apply`, `ensureBar` with its click, `markReveal`, `capFor`, `schedule`, `attach` and `init`. A
-- renderer writes the rows anew, which the observer sees; a frame of the browser then applies the cap.
pub mod Settled
mod Tests
use tuxwall.Base.{
  ℕ, zero, suc, ◌+◌, ◌*◌, ◌-◌, String, Bool, true, false, not, ◌&&◌, ◌||◌, Option, none, some, List,
  [], ◌∷◌, map, min, ltb, leb, ◌==◌, length, if◌then◌else◌,
}

-- A row: whether it has `tw-row-capped`, and the delay in milliseconds with which it is revealed.
pub record Row : Type 0 where
  pub capped : Bool
  pub delay : Option ℕ

-- The bar under the table: what its button says, and the numbers of the count.
pub data Count : Type 0 where
  no_count : Count
  -- "N shown"
  all_shown : ℕ → Count
  -- "CAP of N"
  some_shown : (cap : ℕ) → (rows : ℕ) → Count

pub record Bar : Type 0 where
  pub hidden : Bool
  pub pressed : Bool
  pub count : Count

-- A table that is attached, whose body and wrapper are there. `cap_attr` is `data-tw-cap` as
-- `parseInt` reads it, `expanded` the value of the table's id in the map, `scheduled` whether the table
-- is in the set of those that wait for a frame.
pub record Table : Type 0 where
  pub cap_attr : Option ℕ
  pub rows : List Row
  pub bar : Option Bar
  pub expanded : Option Bool
  pub scheduled : Bool

abbrev pub default_cap : ℕ
default_cap = 25

abbrev cap_or_default : Option ℕ → ℕ
cap_or_default none = default_cap
cap_or_default (some n) = if ltb 0 n then n else default_cap

-- `capFor`
abbrev pub cap_for : Table → ℕ
cap_for t = cap_or_default t.cap_attr

-- `expanded.get(id) === true`
abbrev pub is_true : Option Bool → Bool
is_true none = false
is_true (some b) = b

abbrev pub new_bar : Bar
new_bar = record { hidden = true; pressed = false; count = no_count }

-- `ensureBar`
abbrev pub ensure_bar : Option Bar → Bar
ensure_bar none = new_bar
ensure_bar (some b) = b

abbrev pub uncapped : Row → Row
uncapped r = record r { capped = false }

abbrev pub uncap : List Row → List Row
uncap = map (λ (r : Row). uncapped r)

-- `classList.toggle("tw-row-capped", !isOpen && i >= cap)`, from row `i` on
pub cap_rows : Bool → ℕ → ℕ → List Row → List Row
cap_rows is_open cap i [] = []
cap_rows is_open cap i (r ∷ rs) =
    record r { capped = not is_open && leb cap i } ∷ cap_rows is_open cap (suc i) rs

abbrev pub count_of : Bool → ℕ → ℕ → Count
count_of true cap n = all_shown n
count_of false cap n = some_shown cap n

-- `apply`
unfoldable pub apply : Table → Table
unfolding cap_rows
apply t =
    let bar = ensure_bar t.bar in
    let cap = cap_for t in
    let is_open = is_true t.expanded in
    let n = length t.rows in
    if leb n cap
    then record t { rows = uncap t.rows; bar = some (record bar { hidden = true }) }
    else record t {
      rows = cap_rows is_open cap 0 t.rows;
      bar = some (record { hidden = false; pressed = is_open; count = count_of is_open cap n });
    }

-- `markReveal`: row `i` of those behind the cap
pub reveal_from : ℕ → List Row → List Row
reveal_from i [] = []
reveal_from i (r ∷ rs) =
    (if ltb 24 i then r else record r { delay = some (min (i * 18) 420) }) ∷ reveal_from (suc i) rs

pub mark_reveal : ℕ → List Row → List Row
unfolding reveal_from
mark_reveal zero rs = reveal_from 0 rs
mark_reveal (suc cap) [] = []
mark_reveal (suc cap) (r ∷ rs) = r ∷ mark_reveal cap rs

abbrev pub flip_expanded : Table → Table
flip_expanded t = record t { expanded = some (not (is_true t.expanded)) }

-- What the click changes before it applies the cap.
abbrev pub toggle : Table → Table
toggle t =
    if is_true t.expanded
    then flip_expanded t
    else record (flip_expanded t) { rows = mark_reveal (cap_for t) t.rows }

-- The click on the button of the bar, which takes none while it is hidden.
abbrev pub is_shown : Option Bar → Bool
is_shown none = false
is_shown (some b) = not b.hidden

unfoldable pub click : Table → Table
unfolding apply
click t = if is_shown t.bar then apply (toggle t) else t

-- `schedule`
abbrev pub schedule : Table → Table
schedule t = record t { scheduled = true }

-- The frame that was asked for.
unfoldable pub frame : Table → Table
unfolding apply
frame t = if t.scheduled then apply (record t { scheduled = false }) else t

abbrev pub plain_row : Row
plain_row = record { capped = false; delay = none }

pub rows_of : ℕ → List Row
rows_of zero = []
rows_of (suc n) = plain_row ∷ rows_of n

-- A renderer writes `n` rows; the observer then schedules the table.
unfoldable pub render : ℕ → Table → Table
unfolding rows_of
render n t = schedule (record t { rows = rows_of n })

pub data Event : Type 0 where
  rendered : (rows : ℕ) → Event
  framed clicked : Event
  -- the end of the animation of a row
  animated : (row : ℕ) → Event

pub animation_end : ℕ → List Row → List Row
animation_end i [] = []
animation_end zero (r ∷ rs) = record r { delay = none } ∷ rs
animation_end (suc i) (r ∷ rs) = r ∷ animation_end i rs

pub handle : Event → Table → Table
unfolding render frame click animation_end
handle (rendered n) t = render n t
handle framed t = frame t
handle clicked t = click t
handle (animated i) t = record t { rows = animation_end i t.rows }

pub run : List Event → Table → Table
unfolding handle
run [] t = t
run (e ∷ es) t = run es (handle e t)

-- The table after `attach`, with the `n` rows that it had.
unfoldable pub attach : Option ℕ → ℕ → Table
unfolding rows_of
attach cap_attr n = schedule (record {
  cap_attr = cap_attr;
  rows = rows_of n;
  bar = none;
  expanded = none;
  scheduled = false;
})
