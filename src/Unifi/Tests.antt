-- ===== src/Unifi/Tests.antt =====
-- Two clients that are exported, and a line with a gap.
use tuxwall.Base.{
  ℕ, ◌*◌, ◌≤◌, ◌<◌, ◌≡◌, refl, true, false, Option, none, some, List, [], ◌∷◌, All, length, map,
}
use tuxwall.Base.Texts.{codes}
use tuxwall.Unifi.Csv.{Client, rows_of, quoted, doubled, export_clients_csv}
use tuxwall.Unifi.Csv.Reader.{read_csv, read_csv-export_clients_csv}
use tuxwall.Unifi.Traffic.{segments, segments_from, nice_max, power_below, axis_max, highest}
use tuxwall.Unifi.Traffic.Gaps.{present, concat, IsApart, segments-IsApart}
use tuxwall.Unifi.Traffic.Top.{IsOn, axis_max-IsOn}

abbrev two_clients : List Client
two_clients =
    record {
      name = codes "Ann's \"old\" phone";
      hostname = codes "a,b";
      ip = codes "10.0.0.7";
      mac = [];
      ssid = codes "guest";
      ap = codes "attic";
      signal = some (codes "-61");
      rx_rate = none;
      tx_rate = none;
      uptime = codes "2h";
      vlan = some (codes "20");
      wired = false;
    }
    ∷ record {
      name = [];
      hostname = [];
      ip = [];
      mac = [];
      ssid = [];
      ap = [];
      signal = none;
      rx_rate = none;
      tx_rate = none;
      uptime = [];
      vlan = none;
      wired = true;
    }
    ∷ []

quoted_test : quoted (codes "an \"old\" one") ≡ codes "\"an \"\"old\"\" one\""
unfolding doubled
quoted_test = refl

read_csv-export_clients_csv_example :
    read_csv (export_clients_csv two_clients) ≡ some (rows_of two_clients)
read_csv-export_clients_csv_example = read_csv-export_clients_csv two_clients

abbrev line : List (Option ℕ)
line = some 40 ∷ some 900 ∷ none ∷ none ∷ some 7 ∷ []

pieces_test : map length (segments line) ≡ 2 ∷ 1 ∷ []
unfolding segments segments_from
pieces_test = refl

segments-IsApart_example : (concat (segments line) ≡ present 0 line) × IsApart 0 (segments line)
segments-IsApart_example = segments-IsApart line

top_test : nice_max 900 ≡ 2100
unfolding nice_max power_below
top_test = refl

axis_max-IsOn_example :
    All (IsOn (axis_max 1 line [])) line
    × All (IsOn (axis_max 1 line [])) []
    × (23 * highest (highest 1 line) [] ≤ 10 * axis_max 1 line [])
    × (10 * axis_max 1 line [] < 33 * highest (highest 1 line) [])
axis_max-IsOn_example = axis_max-IsOn 0 line []
