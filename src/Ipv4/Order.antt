-- ===== src/Ipv4/Order.antt =====
-- The order of `compareIp`.
use tuxwall.Base.{ℕ, zero, suc, ◌≡◌, refl, Option, List, map, arith}
use tuxwall.Ipv4.{Sign, less, same, more, parts_after, compare_parts, compare_ip, number, split}

abbrev pub flip : Sign → Sign
flip less = more
flip same = same
flip more = less

compare_parts-flip :
    (n : ℕ) (pa pb : List (Option ℕ)) → compare_parts n pb pa ≡ flip (compare_parts n pa pb)
unfolding compare_parts
compare_parts-flip zero pa pb = refl
compare_parts-flip (suc n) pa pb =
    ground (arith, compare_parts-flip n (parts_after pa) (parts_after pb))

-- Swapping the addresses turns the result round.
pub compare_ip-flip : (a b : List ℕ) → compare_ip b a ≡ flip (compare_ip a b)
unfolding compare_ip
compare_ip-flip a b = compare_parts-flip 4 (map number (split b'.' a)) (map number (split b'.' b))

abbrev pub NotMore : Sign → Type 0
NotMore less = Unit
NotMore same = Unit
NotMore more = ⊥

compare_parts_trans :
    (n : ℕ) (pa pb pc : List (Option ℕ))
    → NotMore (compare_parts n pa pb)
    → NotMore (compare_parts n pb pc)
    → NotMore (compare_parts n pa pc)
unfolding compare_parts
compare_parts_trans zero pa pb pc h k = tt
compare_parts_trans (suc n) pa pb pc h k =
    ground (arith, compare_parts_trans n (parts_after pa) (parts_after pb) (parts_after pc))

-- Not behind is transitive.
pub compare_ip_trans :
    (a b c : List ℕ)
    → NotMore (compare_ip a b)
    → NotMore (compare_ip b c)
    → NotMore (compare_ip a c)
unfolding compare_ip
compare_ip_trans a b c h k =
    compare_parts_trans 4 (map number (split b'.' a)) (map number (split b'.' b))
      (map number (split b'.' c)) h k
