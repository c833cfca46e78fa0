-- ===== src/Cards/Tests.antt =====
-- Two permissions and a question; the first is answered.
use tuxwall.Base.{ℕ, ◌≡◌, refl, true, false, Option, none, some, List, [], ◌∷◌, ◌++◌, map, take}
use tuxwall.Base.Texts.{Distinct}
use tuxwall.Cards.{
  Card, Op, unanswered, asked, polled, reply_began, reply_ended, timer, sent, once, run, empty,
  pending, resolve, apply, offer, poll, add_card, queue_update, mark, reply_begin, reply_end,
  on_card, expire,
}
use tuxwall.Cards.Queue.{IsValid, run-active, active_cards}
use tuxwall.Cards.Requests.{requests, run-Distinct}

abbrev three_asked : List Op
three_asked = polled ("p1" ∷ "p2" ∷ "p1" ∷ []) ∷ asked true "q1" ∷ []

abbrev one_answered : List Op
one_answered = three_asked ++ reply_began 0 ∷ reply_ended 0 once sent ∷ []

uids : List Card → List ℕ
uids = map (λ c. c.uid)

promoted_test :
    (uids (active_cards (run three_asked empty).cards) ≡ 0 ∷ [])
    × (uids (active_cards (run one_answered empty).cards) ≡ 1 ∷ [])
    × (map (λ (c : Card). c.badge) (run one_answered empty).cards ≡ none ∷ some 1 ∷ none ∷ [])
unfolding run apply poll offer add_card queue_update mark reply_begin reply_end resolve on_card uids
promoted_test = (refl, refl, refl)

asked_again_test :
    requests false (run (one_answered ++ timer 0 ∷ polled ("p1" ∷ []) ∷ []) empty).cards
    ≡ "p2" ∷ "p1" ∷ []
unfolding run apply poll offer add_card queue_update mark reply_begin reply_end resolve on_card
    expire
asked_again_test = refl

run-active_example :
    active_cards (run one_answered empty).cards ≡ take 1 (pending (run one_answered empty).cards)
run-active_example = run-active one_answered

run-Distinct_example : Distinct (requests false (run one_answered empty).cards)
run-Distinct_example = run-Distinct false one_answered

abbrev waiting : ℕ → Option ℕ → Card
waiting n b = record {
  uid = n;
  is_question = false;
  request = "p";
  resolved = false;
  outcome = unanswered;
  active = true;
  queued = false;
  badge = b;
  done = none;
  sending = false;
  error = "";
}

abbrev second : Card
second = record (waiting 1 none) { request = "r"; active = false; queued = true }

abbrev two_cards-IsValid : IsValid (waiting 0 (some 1) ∷ second ∷ [])
two_cards-IsValid = record {
  calm = ((refl, refl), ((refl, refl), tt));
  queued = (refl, refl, refl, (refl, refl, refl, tt));
}
