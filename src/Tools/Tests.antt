-- ===== src/Tools/Tests.antt =====
-- Two calls before one message, and one that is updated.
use tuxwall.Base.{◌≡◌, refl, none, some, String, List, [], ◌∷◌, map}
use tuxwall.Tools.{
  Part, Event, part_came, head_clicked, empty, handle, run, tool_row, tool_update, head_of,
  count_names, on_key, group_of, group_running,
}
use tuxwall.Tools.Runs.{IsSound, run-IsSound}

abbrev call : String → String → String → Part
call key pretty status = record {
  key = key;
  pretty = pretty;
  arguments = record {
    command = "";
    file_path = "/etc/hosts";
    path = "";
    pattern = "";
    query = "";
    url = "";
  };
  title = "";
  status = status;
  diff_text = "";
  error_text = "";
  output_text = "";
}

abbrev turn : List Event
turn =
    part_came (call "1" "Read" "running") (some 7)
    ∷ part_came (call "2" "Bash" "pending") (some 7)
    ∷ part_came (call "3" "Read" "completed") (some 7)
    ∷ head_clicked 7
    ∷ part_came (call "4" "Edit" "running") none
    ∷ part_came (call "1" "Read" "completed") (some 7)
    ∷ []

turn_test :
    (map (λ g. g.head.count) (run turn empty).groups ≡ 3 ∷ [])
    × (map (λ g. map (λ c. c.n) g.head.names) (run turn empty).groups ≡ (2 ∷ 1 ∷ []) ∷ [])
    × (map (λ g. g.head.shown_state) (run turn empty).groups ≡ group_running ∷ [])
    × (map (λ r. r.detail) (run turn empty).rows
        ≡ "/etc/hosts" ∷ "/etc/hosts" ∷ "/etc/hosts" ∷ "/etc/hosts" ∷ [])
unfolding run handle tool_row tool_update head_of count_names on_key group_of
turn_test = (refl, refl, refl, refl)

run-IsSound_example : IsSound (run turn empty)
run-IsSound_example = run-IsSound turn
