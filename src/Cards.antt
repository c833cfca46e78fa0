-- ===== src/Cards.antt =====
-- www/scripts/dashboard.js: the permission and question cards of the agent terminal, of which one at
-- a time asks for an answer: `ocPermPending`, `ocPermQueueUpdate`, `ocPermResolve`, `ocPermCard`,
-- `agentReply`, `agentPollPermissions`. The cards are the `.oc-perm` elements in document order; an
-- element is named by its number, `uid`.
pub mod Abort
pub mod Queue
pub mod Requests
mod Tests
use tuxwall.Base.{
  ℕ, zero, suc, ◌+◌, ◌-◌, String, Bool, true, false, not, ◌&&◌, ◌||◌, Option, none, some, List, [],
  ◌∷◌, ◌++◌, ltb, ◌==◌, str_eq, keep, any, length, if◌then◌else◌,
}

-- `oc-approved`, `oc-denied`, or neither
pub data Outcome : Type 0 where
  unanswered approved denied : Outcome

-- What a settled card says: its title, the badge that stood in its head, and the note.
pub record Done : Type 0 where
  pub badge : Option ℕ
  pub note : String

pub record Card : Type 0 where
  pub uid : ℕ
  -- `data-perm-id`, or `data-qid` of a question
  pub is_question : Bool
  pub request : String
  -- `data-resolved`
  pub resolved : Bool
  pub outcome : Outcome
  -- `oc-perm-active` and `oc-perm-queued`
  pub active : Bool
  pub queued : Bool
  -- the "+n waiting" of the head
  pub badge : Option ℕ
  pub done : Option Done
  -- the clicked button, disabled while its answer is under way, and the error that it shows
  pub sending : Bool
  pub error : String

abbrev is_unanswered : Outcome → Bool
is_unanswered unanswered = true
is_unanswered approved = false
is_unanswered denied = false

-- the filter of `ocPermPending`
abbrev pub is_pending : Card → Bool
is_pending c = not c.resolved && is_unanswered c.outcome

abbrev pub pending : List Card → List Card
pending = keep is_pending

-- "+n waiting", on the first pending card, if others wait
abbrev pub badge_for : ℕ → Option ℕ
badge_for zero = none
badge_for (suc n) = some (suc n)

-- The two loops of `ocPermQueueUpdate`, over the cards; `later` says that a pending card came before.
-- The badges of all cards are taken away first.
pub mark : ℕ → Bool → List Card → List Card
mark waiting later [] = []
mark waiting later (c ∷ cs) =
    if is_pending c
    then record c {
      active = not later;
      queued = later;
      badge = (if later then none else badge_for waiting);
    }
      ∷ mark waiting true cs
    else record c { badge = none } ∷ mark waiting later cs

-- `ocPermQueueUpdate`
unfoldable pub queue_update : List Card → List Card
unfolding mark
queue_update cs = mark (length (pending cs) - 1) false cs

abbrev pub outcome_of : String → Outcome
outcome_of note = if str_eq note "denied" || str_eq note "cancelled" then denied else approved

-- The head's text, which the badge is a part of, is read before it is replaced.
abbrev pub settle : String → Card → Card
settle note c = record c {
  resolved = true;
  outcome = outcome_of note;
  done = some (record { badge = c.badge; note = note });
  active = false;
  queued = false;
  badge = none;
}

abbrev pub is_card : ℕ → Card → Bool
is_card uid c = c.uid == uid

-- a card that is on the screen with its buttons
abbrev pub is_open : ℕ → Card → Bool
is_open uid c = is_card uid c && not c.resolved

-- A change of the card with the number, if it is open: a settled card keeps its text and has no button.
pub on_card : ℕ → (Card → Card) → List Card → List Card
on_card uid f [] = []
on_card uid f (c ∷ cs) = if is_open uid c then f c ∷ cs else c ∷ on_card uid f cs

-- `ocPermResolve` up to the timer: nothing for a card that is gone or settled
unfoldable pub resolve : ℕ → String → List Card → List Card
unfolding on_card queue_update
resolve uid note cs =
    if any (is_open uid) cs then queue_update (on_card uid (settle note) cs) else cs

-- the timer of `ocPermResolve`
unfoldable pub expire : ℕ → List Card → List Card
unfolding queue_update
expire uid cs = queue_update (keep (λ c. not (is_card uid c)) cs)

abbrev pub new_card : ℕ → Bool → String → Card
new_card uid is_question request = record {
  uid = uid;
  is_question = is_question;
  request = request;
  resolved = false;
  outcome = unanswered;
  active = false;
  queued = false;
  badge = none;
  done = none;
  sending = false;
  error = "";
}

pub record Screen : Type 0 where
  pub next : ℕ
  pub cards : List Card
  -- the questions that aborts have posted a reject for
  pub rejects : List String

-- `ocPermCard` and the end of `ocQuestionCard`
unfoldable pub add_card : Bool → String → Screen → Screen
unfolding queue_update
add_card is_question request s = record s {
  next = s.next + 1;
  cards = queue_update (s.cards ++ new_card s.next is_question request ∷ []);
}

abbrev pub is_kind : Bool → Card → Bool
is_kind true c = c.is_question
is_kind false c = not c.is_question

abbrev pub has_card : Bool → String → List Card → Bool
has_card q request = any (λ c. is_kind q c && str_eq c.request request)

-- one request of `agentPollPermissions`, or a `permission.asked` event
unfoldable pub offer : Bool → String → Screen → Screen
unfolding add_card
offer is_question request s =
    if str_eq request "" || has_card is_question request s.cards
    then s
    else add_card is_question request s

-- the requests of one poll
unfoldable pub poll : List String → Screen → Screen
unfolding offer
poll [] s = s
poll (r ∷ rs) s = poll rs (offer false r s)

-- The answer to a click on a button of a permission card.
pub data Response : Type 0 where
  once always reject : Response

abbrev pub note_of : Response → String
note_of reject = "denied"
note_of once = "approved"
note_of always = "approved"

-- `agentReply`: the request went through, was answered before (`/not found|already/i`), or failed.
pub data Reply : Type 0 where
  sent : Reply
  answered_before : Reply
  failed : String → Reply

unfoldable pub reply_begin : ℕ → List Card → List Card
unfolding on_card
reply_begin uid = on_card uid (λ c. record c { sending = true })

unfoldable pub reply_end : ℕ → Response → Reply → List Card → List Card
unfolding on_card resolve
reply_end uid response sent cs = resolve uid (note_of response) cs
reply_end uid response answered_before cs = resolve uid "already answered" cs
reply_end uid response (failed message) cs =
    on_card uid (λ c. record c { sending = false; error = message }) cs

-- the uids that `ocAbort` goes through, and what it does with each
abbrev pub open_uids : List Card → List ℕ
open_uids [] = []
open_uids (c ∷ cs) = if is_unanswered c.outcome then c.uid ∷ open_uids cs else open_uids cs

cancel_each : List ℕ → List Card → List Card
cancel_each [] cs = cs
cancel_each (u ∷ us) cs = cancel_each us (resolve u "cancelled" cs)

unfoldable pub cancel_all : List Card → List Card
unfolding cancel_each
cancel_all cs = cancel_each (open_uids cs) cs

-- the questions that `ocAbort` posts a reject for, whose answers it does not look at
abbrev pub open_questions : List Card → List String
open_questions [] = []
open_questions (c ∷ cs) =
    if is_unanswered c.outcome && c.is_question && not (str_eq c.request "")
    then c.request ∷ open_questions cs
    else open_questions cs

-- `ocAbort` after its request
unfoldable pub abort : Screen → Screen
unfolding cancel_all
abort s = record s { cards = cancel_all s.cards; rejects = s.rejects ++ open_questions s.cards }

-- What can happen to the screen.
pub data Op : Type 0 where
  asked : (is_question : Bool) → (request : String) → Op
  polled : List String → Op
  reply_began : ℕ → Op
  reply_ended : ℕ → Response → Reply → Op
  settled : (uid : ℕ) → (note : String) → Op
  timer : ℕ → Op
  aborted : Op

pub apply : Op → Screen → Screen
unfolding abort
apply (asked q r) s = offer q r s
apply (polled rs) s = poll rs s
apply (reply_began u) s = record s { cards = reply_begin u s.cards }
apply (reply_ended u resp rep) s = record s { cards = reply_end u resp rep s.cards }
apply (settled u note) s = record s { cards = resolve u note s.cards }
apply (timer u) s = record s { cards = expire u s.cards }
apply aborted s = abort s

pub run : List Op → Screen → Screen
run [] s = s
run (o ∷ os) s = run os (apply o s)

abbrev pub empty : Screen
empty = record { next = 0; cards = []; rejects = [] }
