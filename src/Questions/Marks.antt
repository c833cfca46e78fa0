-- ===== src/Questions/Marks.antt =====
-- What is highlighted on a question's card, beside what is chosen.
use mathlib.Core.Option.{some-injective}
use tuxwall.Base.{
  ℕ, zero, suc, ◌+◌, ◌≤◌, ◌≡◌, refl, ap, ◌∙◌, String, Bool, true, false, not, ◌&&◌, ◌||◌, Option,
  none, some, List, [], ◌∷◌, ◌++◌, length, leb, get_elem?, arith, All, if-elim, if◌then◌else◌, map,
}
use tuxwall.Base.Texts.{contains, contains-snoc, str_eq_refl}
use tuxwall.Questions.{
  Question, Block, Request, Sheet, Event, unmarked, only, first_is, choose_label, answer_text,
  set_block, submit, skip, close, abort, arrive, run, new_sheet, new_block,
}
use tuxwall.Questions.Runs.{IsKept, run-kept}

abbrev pub marks : List Bool → ℕ
marks [] = 0
marks (m ∷ ms) = (if m then 1 else 0) + marks ms

-- Each option that is marked is among the answers.
abbrev pub marks_chosen : List String → List Bool → List String → Bool
marks_chosen (o ∷ os) (m ∷ ms) answers = (not m || contains answers o) && marks_chosen os ms answers
marks_chosen [] ms answers = true
marks_chosen (o ∷ os) [] answers = true

abbrev pub IsMarked : Block → Type 0
IsMarked b =
    (marks b.marked ≤ 1)
    × (marks_chosen b.question.options b.marked b.answers ≡ true)
    × ((b.question.multiple || leb (length b.answers) 1) ≡ true)

marks-unmarked : (os : List String) → marks (unmarked os) ≡ 0
marks-unmarked [] = refl
marks-unmarked (o ∷ os) = omega (arith, marks-unmarked os)

marks-only : (j : ℕ) (os : List String) → marks (only j os) ≤ 1
marks-only j [] = omega arith
marks-only zero (o ∷ os) = ground (arith, marks-unmarked os)
marks-only (suc j) (o ∷ os) = ground (arith, marks-only j os)

unmarked-marks_chosen : (os answers : List String) → marks_chosen os (unmarked os) answers ≡ true
unmarked-marks_chosen [] answers = refl
unmarked-marks_chosen (o ∷ os) answers = unmarked-marks_chosen os answers

only-marks_chosen :
    (j : ℕ) (os : List String) (l : String) (answers : List String)
    → get_elem? os j ≡ some l
    → contains answers l ≡ true
    → marks_chosen os (only j os) answers ≡ true
only-marks_chosen j [] l answers e h = refl
only-marks_chosen zero (o ∷ os) l answers e h =
    ground
      (arith, unmarked-marks_chosen os answers, ap (contains answers) (some-injective o l e) ∙ h)
only-marks_chosen (suc j) (o ∷ os) l answers e h = only-marks_chosen j os l answers e h

chosen_contains :
    (multiple : Bool) (answers : List String) (l : String)
    → contains (if multiple then answers ++ l ∷ [] else l ∷ []) l ≡ true
chosen_contains true answers l = ground (arith, contains-snoc answers l l, str_eq_refl l)
chosen_contains false answers l = ground (arith, str_eq_refl l)

choose_label-IsMarked :
    (j : ℕ) (l : String) (b : Block)
    → get_elem? b.question.options j ≡ some l
    → IsMarked (choose_label j l b)
unfolding choose_label
choose_label-IsMarked j l b e =
    if-elim IsMarked (not b.question.multiple && first_is l b.answers) _ _
      (λ t. (
        ground (arith, marks-unmarked b.question.options),
        unmarked-marks_chosen b.question.options [],
        ground arith,
      ))
      (λ t.
        if-elim IsMarked (b.question.multiple && contains b.answers l) _ _
          (λ u. (
            ground (arith, marks-unmarked b.question.options),
            unmarked-marks_chosen b.question.options _,
            ground (arith, u),
          ))
          (λ u. (
            marks-only j b.question.options,
            only-marks_chosen j b.question.options l _ e
                (chosen_contains b.question.multiple b.answers l),
            ground arith,
          )))

answer_text-IsMarked : (v : String) (b : Block) → IsMarked (answer_text v b)
unfolding answer_text
answer_text-IsMarked v b = (
  ground (arith, marks-unmarked b.question.options),
  unmarked-marks_chosen b.question.options _,
  ground arith,
)

All-set_block :
    (P : Block → Type 0) (i : ℕ) (b : Block) (bs : List Block)
    → P b
    → All P bs
    → All P (set_block i b bs)
unfolding set_block
All-set_block P i b [] p h = tt
All-set_block P zero b (c ∷ bs) p h = (p, h.1)
All-set_block P (suc i) b (c ∷ bs) p h = (h.0, All-set_block P i b bs p h.1)

abbrev AllMarked : ℕ → Sheet → Type 0
AllMarked n s = All IsMarked s.blocks

submit-AllMarked : (n : ℕ) (s : Sheet) → AllMarked n s → AllMarked n (submit s)
unfolding submit
submit-AllMarked n s h = if-elim (AllMarked n) _ s _ (λ e. h) (λ e. h)

skip-AllMarked : (n : ℕ) (s : Sheet) → AllMarked n s → AllMarked n (skip s)
unfolding skip
skip-AllMarked n s h = if-elim (AllMarked n) _ s _ (λ e. h) (λ e. h)

close-AllMarked : (n : ℕ) (note : String) (s : Sheet) → AllMarked n s → AllMarked n (close note s)
unfolding close
close-AllMarked n note s h = ground (arith, h)

abort-AllMarked : (n : ℕ) (s : Sheet) → s.closed ≡ none → AllMarked n s → AllMarked n (abort s)
unfolding abort
abort-AllMarked n s c h = close-AllMarked n _ _ h

arrive-AllMarked :
    (n : ℕ) (e : Option String) (r : Option Request) (s : Sheet)
    → AllMarked n s
    → AllMarked n (arrive e r s)
unfolding arrive
arrive-AllMarked n e none s h = h
arrive-AllMarked n none (some r) s h = close-AllMarked n _ _ h
arrive-AllMarked n (some m) (some r) s h = h

new_block-AllMarked : (qs : List Question) → All IsMarked (map new_block qs)
new_block-AllMarked [] = tt
new_block-AllMarked (q ∷ qs) = (
  (ground (arith, marks-unmarked q.options), unmarked-marks_chosen q.options [], ground arith),
  new_block-AllMarked qs,
)

-- Whatever is clicked, typed and answered in whatever order, in each question of a card: at most one
-- option is highlighted, also of a question with several choices; a highlighted option is among the
-- answers; and a question with a single choice has one answer at most.
pub run-IsMarked :
    (qs : List Question) (es : List Event) → All IsMarked (run es (new_sheet qs)).blocks
run-IsMarked qs es = run-kept AllMarked rules 0 es (new_sheet qs) (new_block-AllMarked qs)
  where
    rules : IsKept AllMarked
    rules = record {
      on_choice = λ n qi j l s b e f h.
          All-set_block IsMarked qi _ s.blocks (choose_label-IsMarked j l b f) h;
      on_text = λ n qi v s b e h. All-set_block IsMarked qi _ s.blocks (answer_text-IsMarked v b) h;
      on_submit = λ n s c h. submit-AllMarked n s h;
      on_skip = λ n s c h. skip-AllMarked n s h;
      on_close = close-AllMarked;
      on_abort = abort-AllMarked;
      on_arrive = λ n e s h. arrive-AllMarked n e s.in_flight s h;
    }
