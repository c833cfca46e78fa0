-- ===== src/Cards/Abort.antt =====
-- The cards after `ocAbort`.
use tuxwall.Base.{
  ℕ, ◌≡◌, refl, ◌∙◌, String, Bool, true, false, List, [], ◌∷◌, any, keep_skipped, arith, All,
  Bool-cases, inl, inr,
}
use tuxwall.Cards.{
  Card, is_pending, is_unanswered, pending, mark, settle, is_open, on_card, resolve, queue_update,
  cancel_each, cancel_all, open_uids, Op, run, empty,
}
use tuxwall.Cards.Queue.{IsCalm, IsValid, resolve-IsValid, run_empty-IsValid}

mark-open_uids :
    (w : ℕ) (later : Bool) (cs : List Card) → open_uids (mark w later cs) ≡ open_uids cs
unfolding mark
mark-open_uids w later [] = refl
mark-open_uids w later (c ∷ cs) =
    ground (arith, mark-open_uids w true cs, mark-open_uids w later cs)

settled-open_uids :
    (u : ℕ) (note : String) (us : List ℕ) (cs : List Card)
    → All IsCalm cs
    → open_uids cs ≡ u ∷ us
    → (any (is_open u) cs ≡ true) × (open_uids (on_card u (settle note) cs) ≡ us)
unfolding on_card
settled-open_uids u note us [] h e = ground (arith, e)
settled-open_uids u note us (c ∷ cs) h e = elim (Bool-cases (is_unanswered c.outcome)) [
  | inl k ↦
      let e' : c.uid ∷ open_uids cs ≡ u ∷ us = (rw k at e) in
      let r : is_open u c ≡ true = ground (arith, h.0, k, e') in rw r (refl, ground (arith, e'))
  | inr k ↦
      let e' : open_uids cs ≡ u ∷ us = (rw k at e) in
      let r : is_open u c ≡ false = ground (arith, h.0, k) in
      let ih = settled-open_uids u note us cs h.1 e' in rw r (ih.0, rw k (ih.1))
]

resolve-open_uids :
    (u : ℕ) (note : String) (us : List ℕ) (cs : List Card)
    → All IsCalm cs
    → open_uids cs ≡ u ∷ us
    → open_uids (resolve u note cs) ≡ us
unfolding resolve queue_update
resolve-open_uids u note us cs h e =
    let s = settled-open_uids u note us cs h e in
    rw (s.0) (mark-open_uids _ false (on_card u (settle note) cs) ∙ s.1)

cancel_each-open_uids :
    (us : List ℕ) (cs : List Card)
    → IsValid cs
    → open_uids cs ≡ us
    → open_uids (cancel_each us cs) ≡ []
unfolding cancel_each
cancel_each-open_uids [] cs v e = e
cancel_each-open_uids (u ∷ us) cs v e =
    cancel_each-open_uids us (resolve u "cancelled" cs) (resolve-IsValid u "cancelled" cs v)
      (resolve-open_uids u "cancelled" us cs v.calm e)

none_pending : (cs : List Card) → open_uids cs ≡ [] → pending cs ≡ []
none_pending [] e = refl
none_pending (c ∷ cs) e = elim (Bool-cases (is_unanswered c.outcome)) [
  | inl k ↦ let e' : c.uid ∷ open_uids cs ≡ [] = (rw k at e) in ground (arith, e')
  | inr k ↦ keep_skipped is_pending c cs (ground (arith, k)) ∙ none_pending cs (rw k at e)
]

-- Whatever happened on the screen before, after an abort no card waits for an answer: the queue is
-- empty, also where cards were queued behind others.
pub cancel_all-pending : (os : List Op) → pending (cancel_all (run os empty).cards) ≡ []
unfolding cancel_all
cancel_all-pending os =
    let cs = (run os empty).cards in
    none_pending (cancel_each (open_uids cs) cs)
      (cancel_each-open_uids (open_uids cs) cs (run_empty-IsValid os) refl)
