-- ===== src/Questions.antt =====
-- www/scripts/dashboard.js: the questions of the agent, `ocQuestionCard`: what is chosen and typed on
-- one card, what of it is highlighted, and the requests that it posts. A card on which questions were
-- asked has one block for each.
pub mod Runs
pub mod Marks
pub mod Posts
mod Tests
use Prim.Native.String
use tuxwall.Base.{
  ℕ, zero, suc, String, Bool, true, false, not, ◌&&◌, ◌||◌, Option, none, some, List, [], ◌∷◌, ◌++◌,
  map, str_eq, keep, every, get_elem?, if◌then◌else◌,
}
use tuxwall.Base.Texts.{contains}

pub record Question : Type 0 where
  -- the labels of `q.options`
  pub options : List String
  pub multiple : Bool
  -- `q.custom !== false`
  pub custom : Bool

pub record Block : Type 0 where
  pub question : Question
  -- `answers[qi]`
  pub answers : List String
  -- which buttons have the class `oc-sel`
  pub marked : List Bool

pub data Request : Type 0 where
  reply : List (List String) → Request
  -- `by_abort` where it is `ocAbort` that posts it
  reject : (by_abort : Bool) → Request

-- A card, `posted` being the requests that were sent in their order, and `in_flight` the one whose
-- answer has not come. A card that is `closed` has no buttons any more.
pub record Sheet : Type 0 where
  pub blocks : List Block
  pub sent : Bool
  pub posted : List Request
  pub in_flight : Option Request
  pub closed : Option String
  pub error : String

abbrev pub unmarked : List String → List Bool
unmarked = map (λ o. false)

abbrev pub only : ℕ → List String → List Bool
only j [] = []
only zero (o ∷ os) = true ∷ unmarked os
only (suc j) (o ∷ os) = false ∷ only j os

-- `answers[qi][0] === o.label`
abbrev pub first_is : String → List String → Bool
first_is l [] = false
first_is l (a ∷ rest) = str_eq a l

-- The click on the button of an option, but for the submit.
unfoldable pub choose_label : ℕ → String → Block → Block
choose_label j l b =
    let cleared = unmarked b.question.options in
    if not b.question.multiple && first_is l b.answers
    then record b { answers = []; marked = cleared }
    else if b.question.multiple && contains b.answers l
    then record b { answers = keep (λ a. not (str_eq a l)) b.answers; marked = cleared }
    else record b {
      answers = (if b.question.multiple then b.answers ++ l ∷ [] else l ∷ []);
      marked = only j b.question.options;
    }

-- Whether the click goes on to submit: not when it took a single choice back.
abbrev pub choice_submits : String → Block → Bool
choice_submits l b =
    not (not b.question.multiple && first_is l b.answers)
    && (not b.question.multiple && not b.question.custom)

-- `a.length > 0`
abbrev pub is_answered : Block → Bool
is_answered b = elim b.answers [ [] ↦ false | a ∷ rest ↦ true ]

abbrev pub all_answers : List Block → List (List String)
all_answers = map (λ b. b.answers)

unfoldable pub submit : Sheet → Sheet
submit s = if s.sent || not (every is_answered s.blocks) then s else record s {
  sent = true;
  posted = s.posted ++ reply (all_answers s.blocks) ∷ [];
  in_flight = some (reply (all_answers s.blocks));
}

-- the click on "skip question"
unfoldable pub skip : Sheet → Sheet
skip s = if s.sent then s else record s {
  sent = true;
  posted = s.posted ++ reject false ∷ [];
  in_flight = some (reject false);
}

pub set_block : ℕ → Block → List Block → List Block
set_block i b [] = []
set_block zero b (c ∷ cs) = b ∷ cs
set_block (suc i) b (c ∷ cs) = c ∷ set_block i b cs

unfoldable pub choose_on : ℕ → ℕ → Sheet → Block → String → Sheet
unfolding set_block choose_label submit
choose_on qi j s b l =
    let next = record s { blocks = set_block qi (choose_label j l b) s.blocks } in
    if choice_submits l b then submit next else next

pub choose_option : ℕ → ℕ → Sheet → Block → Option String → Sheet
choose_option qi j s b none = s
choose_option qi j s b (some l) = choose_on qi j s b l

pub choose_in : ℕ → ℕ → Sheet → Option Block → Sheet
unfolding choose_option
choose_in qi j s none = s
choose_in qi j s (some b) = choose_option qi j s b (get_elem? b.question.options j)

-- The click on option `j` of question `qi`.
unfoldable pub choose : ℕ → ℕ → Sheet → Sheet
unfolding choose_in
choose qi j s = choose_in qi j s (get_elem? s.blocks qi)

-- `answers[qi] = [v]`, the options' marks cleared
unfoldable pub answer_text : String → Block → Block
answer_text v b = record b { answers = v ∷ []; marked = unmarked b.question.options }

pub write_in : ℕ → String → Sheet → Option Block → Sheet
unfolding set_block answer_text submit
write_in qi v s none = s
write_in qi v s (some b) =
    if str_eq v "" || not b.question.custom
    then s
    else submit (record s { blocks = set_block qi (answer_text v b) s.blocks })

-- `go`, with what is left of the text of the field of question `qi` after `trim`
unfoldable pub write : ℕ → String → Sheet → Sheet
unfolding write_in
write qi v s = write_in qi v s (get_elem? s.blocks qi)

-- The answer to a request: none, or the message of an error.
abbrev pub done_note : Request → String
done_note (reply rest) = "answered"
done_note (reject by_abort) = "skipped"

abbrev pub error_note : Request → String
error_note (reply rest) = "reply failed: "
error_note (reject by_abort) = "reject failed: "

-- `ocPermResolve`, for a card that is settled once
unfoldable pub close : String → Sheet → Sheet
close note s = elim s.closed [ none ↦ record s { closed = some note } | some n ↦ s ]

-- What `ocAbort` does to the card while it is open: it posts a reject, whose answer it does not look
-- at, and settles the card.
unfoldable pub abort : Sheet → Sheet
unfolding close
abort s = close "cancelled" (record s { posted = s.posted ++ reject true ∷ [] })

-- What comes of the request in flight; a message cannot be shown on a card that is closed.
pub arrive : Option String → Option Request → Sheet → Sheet
unfolding close
arrive answer none s = s
arrive none (some r) s = close (done_note r) (record s { in_flight = none })
arrive (some m) (some r) s = record s {
  in_flight = none;
  sent = false;
  error = elim s.closed [ none ↦ String.◌++◌ (error_note r) m | some n ↦ s.error ];
}

pub data Event : Type 0 where
  chosen : (qi : ℕ) → (option : ℕ) → Event
  written : (qi : ℕ) → (text : String) → Event
  submitted skipped : Event
  arrived : (error : Option String) → Event
  -- `question.replied` and `question.rejected`
  settled : (note : String) → Event
  aborted : Event

-- a click or an abort, which only a card that is not settled takes
abbrev pub on_buttons : Option String → (Sheet → Sheet) → Sheet → Sheet
on_buttons none f s = f s
on_buttons (some n) f s = s

pub handle : Event → Sheet → Sheet
unfolding choose write submit skip close abort
handle (chosen qi j) s = on_buttons s.closed (choose qi j) s
handle (written qi v) s = on_buttons s.closed (write qi v) s
handle submitted s = on_buttons s.closed submit s
handle skipped s = on_buttons s.closed skip s
handle (arrived e) s = arrive e s.in_flight s
handle (settled note) s = close note s
handle aborted s = on_buttons s.closed abort s

pub run : List Event → Sheet → Sheet
run [] s = s
run (e ∷ es) s = run es (handle e s)

abbrev pub new_block : Question → Block
new_block q = record { question = q; answers = []; marked = unmarked q.options }

-- the card as it is put on the screen
abbrev pub new_sheet : List Question → Sheet
new_sheet qs = record {
  blocks = map new_block qs;
  sent = false;
  posted = [];
  in_flight = none;
  closed = none;
  error = "";
}
