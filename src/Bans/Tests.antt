-- ===== src/Bans/Tests.antt =====
-- A short list, and an install that registers.
use tuxwall.Base.{
  ℕ, zero, suc, String, Bool, ◌+◌, ◌*◌, ◌≤◌, ◌≡◌, refl, true, false, none, some, List, [], ◌∷◌, map,
  arith,
}
use tuxwall.Bans.{
  Ban, ban_all_ips, Answer, Op, ok, failed, arrived, filtered, more_pressed, run, apply, start,
  loaded, render, render_known, rows_of, rank, choose_filter, load_more, page_size,
}
use tuxwall.Bans.Shown.{BansShown, IsOffered, answered_ips, run-ban_all, press, total, run-press}
use tuxwall.Bans.Sharing.{Share, inactive, local_only, enable}

abbrev two_bans : Answer
two_bans = record {
  bans =
      record { ip = "1.1.1.1"; severity = "high" }
      ∷ record { ip = "2.2.2.2"; severity = "low" }
      ∷ [];
  reporters = some 1;
  cached = false;
  auto = none;
}

abbrev ops : List Op
ops = arrived (ok two_bans) 5 ∷ filtered "medium" ∷ more_pressed ∷ arrived (failed "offline") 9 ∷ []

ops_test :
    (map (λ b. b.ip) (run ops (start none)).page.rows ≡ "1.1.1.1" ∷ [])
    × ((run ops (start none)).page.status ≡ "Error: offline")
    × ((run ops (start none)).page.single_source ≡ true)
unfolding run apply loaded render render_known rows_of rank choose_filter load_more
ops_test = (refl, refl, refl)

abbrev made : List (String × Bool)
made = ("1.1.1.1", false) ∷ []

made_answers : answered_ips made ≡ ban_all_ips (run ops (start none))
unfolding run apply loaded render render_known rows_of rank choose_filter load_more ban_all_ips
made_answers = refl

run-ban_all_example : BansShown made (run ops (start none))
run-ban_all_example = run-ban_all none ops made made_answers

-- Thirty addresses, of which the first page shows 25.
abbrev many : ℕ → List Ban
many zero = []
many (suc n) = record { ip = "3.3.3.3"; severity = "low" } ∷ many n

abbrev long_list : List Op
long_list = arrived (ok (record two_bans { bans = many 30 })) 5 ∷ []

long_test :
    ((run long_list (start none)).page.more ≡ some (5, 25, 30))
    × ((run long_list (start none)).page.ban_all_label ≡ some 25)
    × ((press 1 (run long_list (start none))).page.more ≡ none)
unfolding run apply loaded render render_known rows_of rank load_more
long_test = (refl, refl, refl)

enough : total (run long_list (start none)) ≤ (run long_list (start none)).shown + page_size * 1
unfolding run apply loaded render render_known rows_of rank
enough = omega arith

run-press_example :
    ((press 1 (run long_list (start none))).page.rows
      ≡ rows_of (run long_list (start none)).known (run long_list (start none)).filter)
    × ((press 1 (run long_list (start none))).page.more ≡ none)
    × ((m : ℕ)
        → IsOffered
            (press m (run long_list (start none))).page.more
            ((run long_list (start none)).shown + page_size * m)
            (total (run long_list (start none))))
run-press_example = run-press none long_list 1 enough

abbrev unregistered : Share
unregistered = record { badge = inactive; notice = local_only; label = enable; disabled = false }
