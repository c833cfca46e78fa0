-- ===== src/Cards/Requests.antt =====
-- For which requests the cards stand, and what a settled card says.
use tuxwall.Base.{
  ℕ, ◌-◌, ◌≡◌, refl, ◌∙◌, String, Bool, true, false, not, ◌||◌, Option, none, some, List, [], ◌∷◌,
  ◌++◌, str_eq, keep, any, length, append_nil, if◌then◌else◌, arith, Bool-cases, inl, inr,
  or-eq-false,
}
use tuxwall.Base.Texts.{Distinct-snoc, contains, Distinct}
use tuxwall.Cards.{
  Card, is_pending, pending, badge_for, mark, queue_update, settle, is_card, is_open, resolve,
  expire, is_kind, new_card, Screen, add_card, offer, has_card, poll, Response, Reply, sent,
  answered_before, failed, on_card, reply_begin, reply_end, note_of, cancel_each, cancel_all, abort,
  open_uids, Op, asked, polled, reply_began, reply_ended, settled, timer, aborted, apply, run,
  empty, Done,
}
use tuxwall.Cards.Queue.{IsValid}

-- The requests of the cards of one kind.
abbrev pub requests : Bool → List Card → List String
requests q [] = []
requests q (c ∷ cs) = if is_kind q c then c.request ∷ requests q cs else requests q cs

mark-requests :
    (q : Bool) (w : ℕ) (later : Bool) (cs : List Card)
    → requests q (mark w later cs) ≡ requests q cs
unfolding mark
mark-requests q w later [] = refl
mark-requests true w later (c ∷ cs) =
    ground (arith, mark-requests true w true cs, mark-requests true w later cs)
mark-requests false w later (c ∷ cs) =
    ground (arith, mark-requests false w true cs, mark-requests false w later cs)

on_card-requests :
    (q : Bool) (uid : ℕ) (f : Card → Card) (cs : List Card)
    → ((c : Card) → ((f c).request ≡ c.request) × ((f c).is_question ≡ c.is_question))
    → requests q (on_card uid f cs) ≡ requests q cs
unfolding on_card
on_card-requests q uid f [] k = refl
on_card-requests true uid f (c ∷ cs) k = ground (arith, k c, on_card-requests true uid f cs k)
on_card-requests false uid f (c ∷ cs) k = ground (arith, k c, on_card-requests false uid f cs k)

resolve-requests :
    (q : Bool) (uid : ℕ) (note : String) (cs : List Card)
    → requests q (resolve uid note cs) ≡ requests q cs
unfolding resolve queue_update
resolve-requests q uid note cs = elim (Bool-cases (any (is_open uid) cs)) [
  | inl e ↦ rw e (
      mark-requests q _ false (on_card uid (settle note) cs)
      ∙ on_card-requests q uid (settle note) cs (λ c. (refl, refl)))
  | inr e ↦ rw e
]

contains-keep :
    (q : Bool) (p : Card → Bool) (s : String) (cs : List Card)
    → contains (requests q cs) s ≡ false
    → contains (requests q (keep p cs)) s ≡ false
contains-keep q p s [] h = refl
contains-keep q p s (c ∷ cs) h = elim (Bool-cases (is_kind q c)) [
  | inl e ↦
      let h' : contains (c.request ∷ requests q cs) s ≡ false = (rw e at h) in
      let (a, b) = or-eq-false (str_eq c.request s) _ h' in
      elim (Bool-cases (p c)) [
        | inl k ↦ rw (k, e, a) (contains-keep q p s cs b)
        | inr k ↦ rw k (contains-keep q p s cs b)
      ]
  | inr e ↦ elim (Bool-cases (p c)) [
    | inl k ↦ rw (k, e) (contains-keep q p s cs (rw e at h))
    | inr k ↦ rw k (contains-keep q p s cs (rw e at h))
  ]
]

Distinct-keep :
    (q : Bool) (p : Card → Bool) (cs : List Card)
    → Distinct (requests q cs)
    → Distinct (requests q (keep p cs))
Distinct-keep q p [] h = tt
Distinct-keep q p (c ∷ cs) h = elim (Bool-cases (is_kind q c)) [
  | inl e ↦
      let h' : Distinct (c.request ∷ requests q cs) = (rw e at h) in
      elim (Bool-cases (p c)) [
        | inl k ↦ rw (k, e) (contains-keep q p c.request cs h'.0, Distinct-keep q p cs h'.1)
        | inr k ↦ rw k (Distinct-keep q p cs h'.1)
      ]
  | inr e ↦ elim (Bool-cases (p c)) [
    | inl k ↦ rw (k, e) (Distinct-keep q p cs (rw e at h))
    | inr k ↦ rw k (Distinct-keep q p cs (rw e at h))
  ]
]

expire-Distinct :
    (q : Bool) (uid : ℕ) (cs : List Card)
    → Distinct (requests q cs)
    → Distinct (requests q (expire uid cs))
unfolding expire queue_update
expire-Distinct q uid cs h =
    rw
      (mark-requests q (length (pending (keep (λ c. not (is_card uid c)) cs)) - 1) false
        (keep (λ c. not (is_card uid c)) cs))
      (Distinct-keep q (λ c. not (is_card uid c)) cs h)

has_card-contains :
    (q : Bool) (r : String) (cs : List Card) → contains (requests q cs) r ≡ has_card q r cs
has_card-contains q r [] = refl
has_card-contains q r (c ∷ cs) = elim (Bool-cases (is_kind q c)) [
  | inl e ↦ rw (e, has_card-contains q r cs)
  | inr e ↦ rw (e, has_card-contains q r cs)
]

requests-append :
    (q : Bool) (cs ds : List Card) → requests q (cs ++ ds) ≡ requests q cs ++ requests q ds
requests-append q [] ds = refl
requests-append q (c ∷ cs) ds = elim (Bool-cases (is_kind q c)) [
  | inl e ↦ rw (e, requests-append q cs ds)
  | inr e ↦ rw (e, requests-append q cs ds)
]

snoc-Distinct :
    (q k : Bool) (r : String) (n : ℕ) (cs : List Card)
    → has_card k r cs ≡ false
    → Distinct (requests q cs)
    → Distinct (requests q cs ++ requests q (new_card n k r ∷ []))
snoc-Distinct true true r n cs h d =
    Distinct-snoc (requests true cs) r (has_card-contains true r cs ∙ h) d
snoc-Distinct false false r n cs h d =
    Distinct-snoc (requests false cs) r (has_card-contains false r cs ∙ h) d
snoc-Distinct true false r n cs h d = rw (append_nil (requests true cs)) d
snoc-Distinct false true r n cs h d = rw (append_nil (requests false cs)) d

offer-Distinct :
    (q k : Bool) (r : String) (s : Screen)
    → Distinct (requests q s.cards)
    → Distinct (requests q (offer k r s).cards)
unfolding offer add_card queue_update
offer-Distinct q k r s d = elim (Bool-cases (str_eq r "" || has_card k r s.cards)) [
  | inl e ↦ rw e d
  | inr e ↦
      let (a, b) = or-eq-false (str_eq r "") _ e in
      rw
        (
          e,
          mark-requests q (length (pending (s.cards ++ new_card s.next k r ∷ [])) - 1) false
              (s.cards ++ new_card s.next k r ∷ []),
          requests-append q s.cards (new_card s.next k r ∷ []),
        )
        (snoc-Distinct q k r s.next s.cards b d)
]

poll-Distinct :
    (q : Bool) (rs : List String) (s : Screen)
    → Distinct (requests q s.cards)
    → Distinct (requests q (poll rs s).cards)
unfolding poll
poll-Distinct q [] s d = d
poll-Distinct q (r ∷ rs) s d = poll-Distinct q rs (offer false r s) (offer-Distinct q false r s d)

reply_begin-requests :
    (q : Bool) (uid : ℕ) (cs : List Card) → requests q (reply_begin uid cs) ≡ requests q cs
unfolding reply_begin
reply_begin-requests q uid cs = on_card-requests q uid _ cs (λ c. (refl, refl))

reply_end-requests :
    (q : Bool) (uid : ℕ) (resp : Response) (rep : Reply) (cs : List Card)
    → requests q (reply_end uid resp rep cs) ≡ requests q cs
unfolding reply_end
reply_end-requests q uid resp sent cs = resolve-requests q uid (note_of resp) cs
reply_end-requests q uid resp answered_before cs = resolve-requests q uid "already answered" cs
reply_end-requests q uid resp (failed m) cs = on_card-requests q uid _ cs (λ c. (refl, refl))

cancel_each-requests :
    (q : Bool) (us : List ℕ) (cs : List Card) → requests q (cancel_each us cs) ≡ requests q cs
unfolding cancel_each
cancel_each-requests q [] cs = refl
cancel_each-requests q (u ∷ us) cs =
    cancel_each-requests q us (resolve u "cancelled" cs) ∙ resolve-requests q u "cancelled" cs

apply-Distinct :
    (q : Bool) (o : Op) (s : Screen)
    → Distinct (requests q s.cards)
    → Distinct (requests q (apply o s).cards)
unfolding apply cancel_all abort
apply-Distinct q (asked k r) s d = offer-Distinct q k r s d
apply-Distinct q (polled rs) s d = poll-Distinct q rs s d
apply-Distinct q (reply_began u) s d = rw (reply_begin-requests q u s.cards) d
apply-Distinct q (reply_ended u resp rep) s d = rw (reply_end-requests q u resp rep s.cards) d
apply-Distinct q (settled u note) s d = rw (resolve-requests q u note s.cards) d
apply-Distinct q (timer u) s d = expire-Distinct q u s.cards d
apply-Distinct q aborted s d = rw (cancel_each-requests q (open_uids s.cards) s.cards) d

run_from-Distinct :
    (q : Bool) (os : List Op) (s : Screen)
    → Distinct (requests q s.cards)
    → Distinct (requests q (run os s).cards)
unfolding run
run_from-Distinct q [] s d = d
run_from-Distinct q (o ∷ os) s d = run_from-Distinct q os (apply o s) (apply-Distinct q o s d)

-- On a screen that starts empty, no two cards of a kind ever stand for the same request: neither
-- permissions (`q` false) nor questions (`q` true), whatever the events, the polls, the answers, the
-- timers and the aborts, and their order.
pub run-Distinct : (q : Bool) (os : List Op) → Distinct (requests q (run os empty).cards)
run-Distinct q os = run_from-Distinct q os empty tt

abbrev pub first_done : List Card → Option Done
first_done [] = none
first_done (c ∷ cs) = c.done

mark_settled-first_done :
    (w : ℕ) (note : String) (c : Card) (cs : List Card)
    → first_done (mark w false (settle note c ∷ cs))
      ≡ some (record { badge = c.badge; note = note })
unfolding mark
mark_settled-first_done w note c cs = refl

-- When the answer to the active card arrives, what remains on the card says besides the note how many
-- others were waiting before, since the badge stands in the head that is copied.
pub resolve-first_done :
    (note : String) (c : Card) (cs : List Card)
    → IsValid (c ∷ cs)
    → is_pending c ≡ true
    → first_done (resolve c.uid note (c ∷ cs))
      ≡ some (record { badge = badge_for (length (pending cs)); note = note })
unfolding resolve queue_update on_card
resolve-first_done note c cs v p =
    let r : not c.resolved ≡ true = ground (arith, p) in
    let b : c.badge ≡ badge_for (length (pending cs)) = ground (arith, v.queued.2, p) in
    ground (arith, r, b)
