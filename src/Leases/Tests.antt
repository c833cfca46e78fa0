-- ===== src/Leases/Tests.antt =====
-- Three clients, with texts compared by their length.
use mathlib.Core.List.{Perm}
use tuxwall.Base.{
  ℕ, ◌≡◌, refl, String, Bool, true, false, none, some, List, [], ◌∷◌, map, length, arith, str_eq,
}
use tuxwall.Base.Sort.{IsSorted, sort, insert}
use tuxwall.Base.Texts.{codes}
use tuxwall.Ipv4.{sign, Sign}
use tuxwall.Ipv4.Order.{flip, NotMore}
use tuxwall.Leases.{
  Browser, Lease, Sorting, ip, remaining, after, render, filter_leases, active_leases, click_head,
  sort_leases, compare_by,
}
use tuxwall.Leases.Order.{render-rows}

abbrev by_length : String → String → Sign
by_length a b = sign (length (codes a)) (length (codes b))

by_length-flip : (a b : String) → by_length b a ≡ flip (by_length a b)
by_length-flip a b = ground arith

by_length_trans :
    (a b c : String) → NotMore (by_length a b) → NotMore (by_length b c) → NotMore (by_length a c)
by_length_trans a b c h k = ground (arith, h, k)

abbrev browser : Browser
browser = record {
  lower = λ s. s;
  locale_compare = by_length;
  includes = str_eq;
  show = λ n. "n";
  compare-flip = by_length-flip;
  compare_trans = by_length_trans;
}

abbrev lease : String → Bool → ℕ → ℕ → Lease
lease i st s r = record {
  hostname = some "host";
  ip = i;
  mac = none;
  vendor = none;
  state = s;
  type = 0;
  static = st;
  remaining = some r;
  last_seen = none;
  banned = false;
}

abbrev clients : List Lease
clients =
    lease "192.168.1.20" false 0 60
    ∷ lease "192.168.1.3" true 0 5
    ∷ lease "192.168.1.1" false 2 9
    ∷ []

by_time : Sorting
by_time = click_head remaining (click_head remaining (record { key = ip; ascending = true }))

times_test : map (λ l. l.remaining) (render browser by_time "" clients).rows ≡ some 60 ∷ some 5 ∷ []
unfolding render by_time click_head sort_leases filter_leases sort insert compare_by
times_test = refl

count_test :
    ((render browser by_time "x" clients).total ≡ 2)
    × ((render browser by_time "x" clients).dynamic ≡ 1)
unfolding render
count_test = (refl, refl)

render-rows_example :
    IsSorted (after browser by_time) (render browser by_time "host" clients).rows
    × Perm
        (render browser by_time "host" clients).rows
        (filter_leases browser "host" (active_leases clients))
render-rows_example = render-rows browser by_time "host" clients
