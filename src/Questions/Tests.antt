-- ===== src/Questions/Tests.antt =====
-- A card with a single and a multiple choice.
use tuxwall.Base.{◌+◌, ◌≤◌, ◌≡◌, refl, true, false, some, List, [], ◌∷◌, map, ◌++◌, All}
use tuxwall.Questions.{
  Question, Block, Event, reply, reject, chosen, submitted, arrived, aborted, run, new_sheet,
  handle, choose, choose_in, choose_option, choose_on, choose_label, set_block, submit, arrive,
  abort, close,
}
use tuxwall.Questions.Posts.{IsFull, run-IsFull, by_user, by_aborts, run-posted_le}
use tuxwall.Questions.Runs.{refusals}
use tuxwall.Questions.Marks.{IsMarked, run-IsMarked}

abbrev two_questions : List Question
two_questions =
    record { options = "yes" ∷ "no" ∷ []; multiple = false; custom = false }
    ∷ record { options = "a" ∷ "b" ∷ "c" ∷ []; multiple = true; custom = true }
    ∷ []

abbrev clicks : List Event
clicks =
    chosen 1 0 ∷ chosen 1 2 ∷ chosen 0 1 ∷ submitted ∷ arrived (some "offline") ∷ submitted ∷ []

posted_twice :
    (run clicks (new_sheet two_questions)).posted
    ≡ reply (("no" ∷ []) ∷ ("a" ∷ "c" ∷ []) ∷ []) ∷ reply (("no" ∷ []) ∷ ("a" ∷ "c" ∷ []) ∷ []) ∷ []
unfolding run handle choose choose_in choose_option choose_on choose_label set_block submit arrive
posted_twice = refl

-- Both "a" and "c" are chosen, and only "c" is highlighted.
one_highlight :
    map (λ (b : Block). b.marked) (run clicks (new_sheet two_questions)).blocks
    ≡ (false ∷ true ∷ []) ∷ (false ∷ false ∷ true ∷ []) ∷ []
unfolding run handle choose choose_in choose_option choose_on choose_label set_block submit arrive
one_highlight = refl

run-IsFull_example : All (IsFull 2) (run clicks (new_sheet two_questions)).posted
run-IsFull_example = run-IsFull two_questions clicks

abbrev abandoned : List Event
abandoned = chosen 1 0 ∷ chosen 0 1 ∷ submitted ∷ aborted ∷ submitted ∷ aborted ∷ []

abandoned_test :
    (run abandoned (new_sheet two_questions)).posted
    ≡ reply (("no" ∷ []) ∷ ("a" ∷ []) ∷ []) ∷ reject true ∷ []
unfolding run handle choose choose_in choose_option choose_on choose_label set_block submit abort
    close
abandoned_test = refl

run-posted_le_example :
    (by_user (run (clicks ++ abandoned) (new_sheet two_questions)).posted
      ≤ refusals (clicks ++ abandoned) 0 + 1)
    × (by_aborts (run (clicks ++ abandoned) (new_sheet two_questions)).posted ≤ 1)
run-posted_le_example = run-posted_le two_questions (clicks ++ abandoned)

run-IsMarked_example : All IsMarked (run clicks (new_sheet two_questions)).blocks
run-IsMarked_example = run-IsMarked two_questions clicks
