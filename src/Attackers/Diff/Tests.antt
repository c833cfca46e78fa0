-- ===== src/Attackers/Diff/Tests.antt =====
-- Runs of the refresh, and its theorems at a concrete table.
use tuxwall.Base.{ℕ, ◌≡◌, refl, true, false, none, List, [], ◌∷◌, map, String, str_eq}
use tuxwall.Format.{format_relative, never}
use tuxwall.Community.{Community, badge}
use tuxwall.Attackers.{
  Attacker, Scene, Row, high, no_button, plain, threat_level, build_row, update_row,
}
use tuxwall.Attackers.Diff.{row, placeholder, rows, row_ips, place, step, Table, diff_table}
use tuxwall.Attackers.Diff.Refresh.{refreshed, rows-diff_table}
use tuxwall.Attackers.Diff.Invariant.{IsValid, diff_table-IsValid}

abbrev attacker : String → ℕ → Attacker
attacker ip n = record {
  ip = ip;
  location = "Unknown";
  port = none;
  count = n;
  first = 0;
  last = 0;
}

abbrev scene : Scene
scene = record { ip_max = 100; is_banned = λ ip. str_eq ip "5.5.5.5"; cs_up = true; now = 1000 }

abbrev quiet : Community
quiet = record { cache = []; in_flight = []; asked = [] }

abbrev old : String → ℕ → Row
old ip n = record {
  ip = ip;
  location = "Unknown";
  port = none;
  first = 0;
  last = 0;
  count = n;
  pct = none;
  is_banned = false;
  threat = high;
  badge = high;
  hits = n;
  bar = none;
  seen = never;
  seen_title = 0;
  recency = plain;
  button = no_button;
  report = "";
  isp = "AS1";
  listens = true;
}

abbrev table : Table
table = record {
  nodes = row (old "9.9.9.9" 7) ∷ row (old "1.1.1.1" 10) ∷ row (old "5.5.5.5" 3) ∷ [];
  community = quiet;
}

abbrev entries : List Attacker
entries = attacker "5.5.5.5" 100 ∷ attacker "2.2.2.2" 20 ∷ attacker "1.1.1.1" 10 ∷ []

-- One row goes, one comes, two change places.
diff_table_order :
    row_ips (rows (diff_table scene 0 entries 3 table).nodes)
    ≡ "5.5.5.5" ∷ "2.2.2.2" ∷ "1.1.1.1" ∷ []
unfolding diff_table step place build_row update_row badge threat_level format_relative
diff_table_order = refl

diff_table_isp :
    map (λ r. r.isp) (rows (diff_table scene 0 entries 3 table).nodes) ≡ "AS1" ∷ "" ∷ "AS1" ∷ []
unfolding diff_table step place build_row update_row badge threat_level format_relative
diff_table_isp = refl

diff_table_placeholder :
    row_ips (rows (diff_table scene 0 entries 2 (record table { nodes = placeholder ∷ [] })).nodes)
    ≡ "5.5.5.5" ∷ "2.2.2.2" ∷ []
unfolding diff_table step place build_row update_row badge threat_level format_relative
diff_table_placeholder = refl

rows-diff_table_example :
    rows (diff_table scene 0 entries 3 table).nodes ≡ map (refreshed scene 0 [] table.nodes) entries
rows-diff_table_example =
    rows-diff_table scene 0 entries 3 table (refl, (refl, (refl, tt))) (refl, (refl, (refl, tt)))

table-IsValid : IsValid table
table-IsValid = record {
  distinct = (refl, (refl, (refl, tt)));
  consistent = (refl, (refl, (refl, tt)));
  in_flight = tt;
}

diff_table-IsValid_example : IsValid (diff_table scene 0 entries 3 table)
diff_table-IsValid_example =
    diff_table-IsValid scene 0 entries 3 table (refl, (refl, (refl, tt))) table-IsValid
