-- ===== src/Ipv4/Tests.antt =====
-- Addresses compared.
use tuxwall.Base.{ℕ, ◌≡◌, refl, List}
use tuxwall.Base.Texts.{codes}
use tuxwall.Ipv4.{less, compare_ip, number, split, to_int, parse_int}

abbrev ip_2 : List ℕ
ip_2 = codes "10.0.0.2"

abbrev ip_10 : List ℕ
ip_10 = codes "10.0.0.10"

abbrev ip_192 : List ℕ
ip_192 = codes "192.168.1.1"

compare_test : (compare_ip ip_2 ip_10 ≡ less) × (to_int ip_192 ≡ 3232235777)
unfolding compare_ip number split to_int parse_int
compare_test = (refl, refl)
