-- ===== src/Leases/Order.antt =====
-- The order of the rows of the clients' table, and which leases they are.
use mathlib.Core.List.{Perm}
use tuxwall.Base.{
  ◌≡◌, String, Bool, true, false, List, [], ◌∷◌, keep, arith, All-keep, Bool-cases, inl, inr,
  str_eq, if-elim,
}
use tuxwall.Base.Sort.{IsSorted, sort-IsSorted, sort-perm, keep-sort_perm}
use tuxwall.Ipv4.{Sign}
use tuxwall.Ipv4.Order.{flip, NotMore, compare_ip-flip, compare_ip_trans}
use tuxwall.Leases.{
  Browser, Lease, Column, hostname, ip, mac, type, remaining, last_seen, banned, Sorting,
  compare_by, directed, is_more, after, sort_leases, filter_leases, active_leases, lease_matches,
  render,
}

module _ (w : Browser) where
  compare_by-flip : (c : Column) (x y : Lease) → compare_by w c y x ≡ flip (compare_by w c x y)
  unfolding compare_by
  compare_by-flip ip x y = compare_ip-flip _ _
  compare_by-flip remaining x y = ground arith
  compare_by-flip hostname x y = w.compare-flip _ _
  compare_by-flip mac x y = w.compare-flip _ _
  compare_by-flip type x y = w.compare-flip _ _
  compare_by-flip last_seen x y = w.compare-flip _ _
  compare_by-flip banned x y = w.compare-flip _ _

  compare_by_trans :
      (c : Column) (x y z : Lease)
      → NotMore (compare_by w c x y)
      → NotMore (compare_by w c y z)
      → NotMore (compare_by w c x z)
  unfolding compare_by
  compare_by_trans ip x y z h k = compare_ip_trans _ _ _ h k
  compare_by_trans remaining x y z h k = ground (arith, h, k)
  compare_by_trans hostname x y z h k = w.compare_trans _ _ _ h k
  compare_by_trans mac x y z h k = w.compare_trans _ _ _ h k
  compare_by_trans type x y z h k = w.compare_trans _ _ _ h k
  compare_by_trans last_seen x y z h k = w.compare_trans _ _ _ h k
  compare_by_trans banned x y z h k = w.compare_trans _ _ _ h k

  more_flip :
      (up : Bool) (s t : Sign)
      → t ≡ flip s
      → is_more (directed up s) ≡ true
      → is_more (directed up t) ≡ false
  more_flip up s t e h = ground (arith, e, h)

  after_asym : (s : Sorting) (x y : Lease) → after w s x y ≡ true → after w s y x ≡ false
  after_asym s x y h =
      more_flip s.ascending (compare_by w s.key x y) _ (compare_by-flip s.key x y) h

  is_more-NotMore : (s : Sign) → is_more s ≡ false → NotMore s
  is_more-NotMore s h = ground (arith, h)

  NotMore-is_more : (s : Sign) → NotMore s → is_more s ≡ false
  NotMore-is_more s h = ground (arith, h)

  swap_more : (s t : Sign) → t ≡ flip s → is_more (flip s) ≡ false → NotMore t
  swap_more s t e h = ground (arith, e, h)

  more_swap : (s t : Sign) → t ≡ flip s → NotMore t → is_more (flip s) ≡ false
  more_swap s t e h = ground (arith, e, h)

  directed_trans :
      (up : Bool) (c : Column) (x y z : Lease)
      → is_more (directed up (compare_by w c x y)) ≡ false
      → is_more (directed up (compare_by w c y z)) ≡ false
      → is_more (directed up (compare_by w c x z)) ≡ false
  directed_trans true c x y z h k =
      NotMore-is_more _ (compare_by_trans c x y z (is_more-NotMore _ h) (is_more-NotMore _ k))
  directed_trans false c x y z h k = more_swap _ _ (compare_by-flip c x z) (
      compare_by_trans c z y x (swap_more _ _ (compare_by-flip c y z) k)
        (swap_more _ _ (compare_by-flip c x y) h))

  keep-IsSorted :
      (s : Sorting) (p : Lease → Bool) (ls : List Lease)
      → IsSorted (after w s) ls
      → IsSorted (after w s) (keep p ls)
  keep-IsSorted s p [] h = tt
  keep-IsSorted s p (l ∷ ls) h =
      if-elim (IsSorted (after w s)) (p l) _ _
        (λ e. (All-keep (λ y. after w s l y ≡ false) p ls h.0, keep-IsSorted s p ls h.1))
        (λ e. keep-IsSorted s p ls h.1)

  sort_leases-IsSorted : (s : Sorting) (ls : List Lease) → IsSorted (after w s) (sort_leases w s ls)
  unfolding sort_leases
  sort_leases-IsSorted s ls =
      sort-IsSorted (after w s) (after_asym s) (λ x y z. directed_trans s.ascending s.key x y z) ls

  filter_leases-IsSorted :
      (s : Sorting) (q : String) (ls : List Lease)
      → IsSorted (after w s) ls
      → IsSorted (after w s) (filter_leases w q ls)
  unfolding filter_leases
  filter_leases-IsSorted s q ls h =
      if-elim (IsSorted (after w s)) (str_eq q "") ls _ (λ e. h)
        (λ e. keep-IsSorted s (lease_matches w q) ls h)

  filter_leases-perm :
      (s : Sorting) (q : String) (ls : List Lease)
      → Perm (filter_leases w q (sort_leases w s ls)) (filter_leases w q ls)
  unfolding filter_leases sort_leases
  filter_leases-perm s q ls = elim (Bool-cases (str_eq q "")) [
    | inl e ↦ rw e (sort-perm (after w s) ls)
    | inr e ↦ rw e (keep-sort_perm (after w s) (lease_matches w q) ls)
  ]

  -- In the rows that are shown no lease stands before one that the comparator of the chosen column
  -- and direction puts in front of it, if the browser's comparison of texts is consistent; and the rows
  -- are the active leases that match the filter, each as often as it is there.
  pub render-rows :
      (s : Sorting) (q : String) (ls : List Lease)
      → IsSorted (after w s) (render w s q ls).rows
        × Perm (render w s q ls).rows (filter_leases w q (active_leases ls))
  unfolding render
  render-rows s q ls = (
    filter_leases-IsSorted s q (sort_leases w s (active_leases ls))
        (sort_leases-IsSorted s (active_leases ls)),
    filter_leases-perm s q (active_leases ls),
  )
