-- ===== src/Ipv4.antt =====
-- www/scripts/dashboard.js: `compareIp`, and `toInt` in `computeOvHealth`. A text is the list of
-- its character codes. Of `Number` the model has decimal digits, blanks around them and the empty
-- text (0); a text of another form is NaN, so signs, exponents and hexadecimal numbers, which the
-- parts of an address do not hold, are left out.
pub mod Order
mod Tests
use tuxwall.Base.{
  ℕ, zero, suc, ◌+◌, ◌-◌, ◌*◌, ◌%◌, Bool, true, false, ◌&&◌, ◌||◌, Option, none, some, List, [],
  ◌∷◌, map, ltb, leb, ◌==◌, if◌then◌else◌,
}
use mathlib.Core.List.{reverse}

-- `text.split(sep)`, from the last part to the first
abbrev add_char : ℕ → List (List ℕ) → List (List ℕ)
add_char c [] = (c ∷ []) ∷ []
add_char c (p ∷ ps) = (c ∷ p) ∷ ps

unfoldable pub split : ℕ → List ℕ → List (List ℕ)
split sep [] = [] ∷ []
split sep (c ∷ cs) = let rest = split sep cs in if c == sep then [] ∷ rest else add_char c rest

abbrev is_blank : ℕ → Bool
is_blank c = c == 32 || leb 9 c && leb c 13

skip_blanks : List ℕ → List ℕ
skip_blanks [] = []
skip_blanks (c ∷ cs) = if is_blank c then skip_blanks cs else c ∷ cs

unfoldable pub trim : List ℕ → List ℕ
unfolding skip_blanks
trim cs = reverse (skip_blanks (reverse (skip_blanks cs)))

abbrev pub is_digit : ℕ → Bool
is_digit c = leb b'0' c && leb c b'9'

-- the digits at the front, after a value read so far
digits_from : ℕ → List ℕ → ℕ
digits_from n [] = n
digits_from n (c ∷ cs) =
    let rest = digits_from (10 * n + (c - b'0')) cs in if is_digit c then rest else n

int_of : List ℕ → Option ℕ
unfolding digits_from
int_of [] = none
int_of (c ∷ cs) = if is_digit c then some (digits_from (c - b'0') cs) else none

drop_plus : List ℕ → List ℕ
drop_plus [] = []
drop_plus (c ∷ cs) = if c == b'+' then cs else c ∷ cs

-- `parseInt(o, 10)`
unfoldable pub parse_int : List ℕ → Option ℕ
unfolding int_of drop_plus skip_blanks
parse_int cs = int_of (drop_plus (skip_blanks cs))

-- `Number(o)`
abbrev pub all_digits : List ℕ → Bool
all_digits [] = true
all_digits (c ∷ cs) = is_digit c && all_digits cs

value_of : List ℕ → Option ℕ
unfolding digits_from
value_of cs = if all_digits cs then some (digits_from 0 cs) else none

unfoldable pub number : List ℕ → Option ℕ
unfolding value_of trim
number cs = value_of (trim cs)

-- `x || 0`, for a number that may be NaN
abbrev pub or_zero : Option ℕ → ℕ
or_zero none = 0
or_zero (some n) = n

-- The difference of two numbers, as a comparator's result is used: by its sign.
pub data Sign : Type 0 where
  less same more : Sign

abbrev pub sign : ℕ → ℕ → Sign
sign x y = if ltb x y then less else if ltb y x then more else same

-- `pa[i] || 0`: a part that is not there is 0
abbrev pub part : List (Option ℕ) → ℕ
part [] = 0
part (o ∷ os) = or_zero o

abbrev pub parts_after : List (Option ℕ) → List (Option ℕ)
parts_after [] = []
parts_after (o ∷ os) = os

-- the loop of `compareIp`, with the rounds left
unfoldable pub compare_parts : ℕ → List (Option ℕ) → List (Option ℕ) → Sign
compare_parts zero pa pb = same
compare_parts (suc n) pa pb =
    let rest = compare_parts n (parts_after pa) (parts_after pb) in
    let x = part pa in let y = part pb in if x == y then rest else sign x y

unfoldable pub compare_ip : List ℕ → List ℕ → Sign
unfolding compare_parts
compare_ip a b = compare_parts 4 (map number (split b'.' a)) (map number (split b'.' b))

-- `(n << 8) + o`: the shift wraps at 32 bits, the sum does not
unfoldable pub int_from : ℕ → List ℕ → ℕ
int_from n [] = n
int_from n (o ∷ os) = int_from ((n * 256) % 4294967296 + o) os

-- `ip.split(".").reduce(…, 0) >>> 0`. The wrapped number may be negative in the code; only its
-- remainder by 2^32 is used, by the next shift and by the last one.
unfoldable pub to_int : List ℕ → ℕ
unfolding int_from
to_int ip = int_from 0 (map (λ o. or_zero (parse_int o)) (split b'.' ip)) % 4294967296
