-- ===== src/Cards/Queue.antt =====
-- Which of the cards is active.
use tuxwall.Base.{
  ℕ, ◌-◌, ◌≡◌, refl, ◌∙◌, ap, sym, take, keep_kept, keep_skipped, String, Bool, true, false, not,
  ◌&&◌, ◌||◌, none, List, [], ◌∷◌, keep, any, length, if◌then◌else◌, arith, All, All-append,
  All-keep, Bool-cases, inl, inr,
}
use tuxwall.Cards.{
  Card, is_pending, pending, badge_for, mark, queue_update, settle, is_open, resolve, expire,
  Screen, add_card, offer, poll, Response, Reply, sent, answered_before, failed, on_card,
  reply_begin, reply_end, note_of, cancel_each, cancel_all, abort, open_uids, Op, asked, polled,
  reply_began, reply_ended, settled, timer, aborted, apply, run, empty, is_unanswered,
}

-- A card that waits for no answer is neither active nor queued, and it is settled exactly when it has
-- an outcome.
abbrev pub IsCalm : Card → Type 0
IsCalm c =
    ((is_pending c || (not c.active && not c.queued)) ≡ true)
    × (c.resolved ≡ not (is_unanswered c.outcome))

-- What `ocPermQueueUpdate` is to show.
abbrev pub IsQueued : ℕ → Bool → List Card → Type 0
IsQueued waiting later [] = Unit
IsQueued waiting later (c ∷ cs) =
    (c.active ≡ (is_pending c && not later))
    × (c.queued ≡ (is_pending c && later))
    × (c.badge ≡ (if is_pending c && not later then badge_for waiting else none))
    × IsQueued waiting (later || is_pending c) cs

pub record IsValid (cs : List Card) : Type 0 where
  pub calm : All IsCalm cs
  pub queued : IsQueued (length (pending cs) - 1) false cs

mark-IsQueued :
    (waiting : ℕ) (later : Bool) (cs : List Card)
    → All IsCalm cs
    → IsQueued waiting later (mark waiting later cs)
unfolding mark
mark-IsQueued waiting later [] h = tt
mark-IsQueued waiting true (c ∷ cs) h = elim (Bool-cases (is_pending c)) [
  | inl e ↦
      rw e
        (ground (arith, e), ground (arith, e), ground (arith, e), mark-IsQueued waiting true cs h.1)
  | inr e ↦ rw e (
    ground (arith, h.0, e),
    ground (arith, h.0, e),
    ground (arith, e),
    mark-IsQueued waiting true cs h.1,
  )
]
mark-IsQueued waiting false (c ∷ cs) h = elim (Bool-cases (is_pending c)) [
  | inl e ↦ rw e (
    ground (arith, e),
    ground (arith, e),
    ground (arith, e),
    rw e (mark-IsQueued waiting true cs h.1),
  )
  | inr e ↦ rw e (
    ground (arith, h.0, e),
    ground (arith, h.0, e),
    ground (arith, e),
    rw e (mark-IsQueued waiting false cs h.1),
  )
]

mark-IsCalm :
    (waiting : ℕ) (later : Bool) (cs : List Card)
    → All IsCalm cs
    → All IsCalm (mark waiting later cs)
unfolding mark
mark-IsCalm waiting later [] h = tt
mark-IsCalm waiting later (c ∷ cs) h = elim (Bool-cases (is_pending c)) [
  | inl e ↦ rw e (ground (arith, h.0, e), mark-IsCalm waiting true cs h.1)
  | inr e ↦ rw e (h.0, mark-IsCalm waiting later cs h.1)
]

mark-pending :
    (waiting : ℕ) (later : Bool) (cs : List Card)
    → length (pending (mark waiting later cs)) ≡ length (pending cs)
unfolding mark
mark-pending waiting later [] = refl
mark-pending waiting later (c ∷ cs) =
    ground (arith, mark-pending waiting true cs, mark-pending waiting later cs)

-- Whatever the cards showed before, the update leaves the queue in order.
pub queue_update-IsValid : (cs : List Card) → All IsCalm cs → IsValid (queue_update cs)
unfolding queue_update
queue_update-IsValid cs h =
    let w = length (pending cs) - 1 in
    record {
      calm = mark-IsCalm w false cs h;
      queued = rw (mark-pending w false cs) (mark-IsQueued w false cs h);
    }

pub on_card-IsCalm :
    (uid : ℕ) (f : Card → Card)
    → ((c : Card) → IsCalm c → IsCalm (f c))
    → (cs : List Card) → All IsCalm cs
    → All IsCalm (on_card uid f cs)
unfolding on_card
on_card-IsCalm uid f k [] h = tt
on_card-IsCalm uid f k (c ∷ cs) h = elim (Bool-cases (is_open uid c)) [
  | inl e ↦ rw e (k c h.0, h.1)
  | inr e ↦ rw e (h.0, on_card-IsCalm uid f k cs h.1)
]

pub resolve-IsValid :
    (uid : ℕ) (note : String) (cs : List Card) → IsValid cs → IsValid (resolve uid note cs)
unfolding resolve
resolve-IsValid uid note cs v = elim (Bool-cases (any (is_open uid) cs)) [
  | inl e ↦ rw e (
      queue_update-IsValid (on_card uid (settle note) cs)
        (on_card-IsCalm uid (settle note) (λ c h. (refl, ground arith)) cs v.calm))
  | inr e ↦ rw e v
]

expire-IsValid : (uid : ℕ) (cs : List Card) → IsValid cs → IsValid (expire uid cs)
unfolding expire
expire-IsValid uid cs v = queue_update-IsValid _ (All-keep IsCalm _ cs v.calm)

add_card-IsValid :
    (q : Bool) (r : String) (s : Screen) → IsValid s.cards → IsValid (add_card q r s).cards
unfolding add_card
add_card-IsValid q r s v =
    queue_update-IsValid _ (All-append IsCalm s.cards _ v.calm ((refl, refl), tt))

offer-IsValid : (q : Bool) (r : String) (s : Screen) → IsValid s.cards → IsValid (offer q r s).cards
unfolding offer
offer-IsValid q r s v = ground (arith, add_card-IsValid q r s v)

poll-IsValid : (rs : List String) (s : Screen) → IsValid s.cards → IsValid (poll rs s).cards
unfolding poll
poll-IsValid [] s v = v
poll-IsValid (r ∷ rs) s v = poll-IsValid rs (offer false r s) (offer-IsValid false r s v)

-- A change of one card that leaves its place in the queue alone.
KeepsPlace : (Card → Card) → Type 0
KeepsPlace f =
    (c : Card)
    → (is_pending (f c) ≡ is_pending c)
      × (IsCalm c → IsCalm (f c))
      × ((f c).active ≡ c.active)
      × ((f c).queued ≡ c.queued)
      × ((f c).badge ≡ c.badge)

module _ (uid : ℕ) (f : Card → Card) (k : KeepsPlace f) where
  on_card-pending : (cs : List Card) → length (pending (on_card uid f cs)) ≡ length (pending cs)
  unfolding on_card KeepsPlace
  on_card-pending [] = refl
  on_card-pending (c ∷ cs) = ground (arith, on_card-pending cs, (k c).0)

  on_card-IsQueued :
      (w : ℕ) (later : Bool) (cs : List Card)
      → IsQueued w later cs
      → IsQueued w later (on_card uid f cs)
  unfolding on_card KeepsPlace
  on_card-IsQueued w later [] h = tt
  on_card-IsQueued w later (c ∷ cs) h = elim (Bool-cases (is_open uid c)) [
    | inl e ↦ rw (e, (k c).0) ((k c).2 ∙ h.0, (k c).3 ∙ h.1, (k c).4 ∙ h.2, h.3)
    | inr e ↦ rw e (h.0, h.1, h.2, on_card-IsQueued w (later || is_pending c) cs h.3)
  ]

  on_card-IsValid : (cs : List Card) → IsValid cs → IsValid (on_card uid f cs)
  unfolding KeepsPlace
  on_card-IsValid cs v = record {
    calm = on_card-IsCalm uid f (λ c. (k c).1) cs v.calm;
    queued = rw (on_card-pending cs) (on_card-IsQueued _ false cs v.queued);
  }

reply_begin-IsValid : (uid : ℕ) (cs : List Card) → IsValid cs → IsValid (reply_begin uid cs)
unfolding reply_begin KeepsPlace
reply_begin-IsValid uid cs v = on_card-IsValid uid _ (λ c. (refl, (λ h. h), refl, refl, refl)) cs v

reply_end-IsValid :
    (uid : ℕ) (resp : Response) (rep : Reply) (cs : List Card)
    → IsValid cs
    → IsValid (reply_end uid resp rep cs)
unfolding reply_end KeepsPlace
reply_end-IsValid uid resp sent cs v = resolve-IsValid uid (note_of resp) cs v
reply_end-IsValid uid resp answered_before cs v = resolve-IsValid uid "already answered" cs v
reply_end-IsValid uid resp (failed m) cs v =
    on_card-IsValid uid _ (λ c. (refl, (λ h. h), refl, refl, refl)) cs v

cancel_each-IsValid : (us : List ℕ) (cs : List Card) → IsValid cs → IsValid (cancel_each us cs)
unfolding cancel_each
cancel_each-IsValid [] cs v = v
cancel_each-IsValid (u ∷ us) cs v =
    cancel_each-IsValid us (resolve u "cancelled" cs) (resolve-IsValid u "cancelled" cs v)

apply-IsValid : (o : Op) (s : Screen) → IsValid s.cards → IsValid (apply o s).cards
unfolding apply cancel_all abort
apply-IsValid (asked q r) s v = offer-IsValid q r s v
apply-IsValid (polled rs) s v = poll-IsValid rs s v
apply-IsValid (reply_began u) s v = reply_begin-IsValid u s.cards v
apply-IsValid (reply_ended u resp rep) s v = reply_end-IsValid u resp rep s.cards v
apply-IsValid (settled u note) s v = resolve-IsValid u note s.cards v
apply-IsValid (timer u) s v = expire-IsValid u s.cards v
apply-IsValid aborted s v = cancel_each-IsValid (open_uids s.cards) s.cards v

-- Every run from a screen in order ends with a screen in order.
pub run-IsValid : (os : List Op) (s : Screen) → IsValid s.cards → IsValid (run os s).cards
unfolding run
run-IsValid [] s v = v
run-IsValid (o ∷ os) s v = run-IsValid os (apply o s) (apply-IsValid o s v)

abbrev pub active_cards : List Card → List Card
active_cards = keep (λ c. c.active)

active_later : (w : ℕ) (cs : List Card) → IsQueued w true cs → active_cards cs ≡ []
active_later w [] h = refl
active_later w (c ∷ cs) h = ground (arith, active_later w cs h.3, h.0)

active_first :
    (w : ℕ) (cs : List Card) → IsQueued w false cs → active_cards cs ≡ take 1 (pending cs)
active_first w [] h = refl
active_first w (c ∷ cs) h = elim (Bool-cases (is_pending c)) [
  | inl e ↦
      let tail : IsQueued w true cs = (rw e at (h.3)) in
      let a : c.active ≡ true = h.0 ∙ rw e refl in
      keep_kept (λ d. d.active) c cs a
      ∙ ap (c ∷◌) (active_later w cs tail)
      ∙ sym (ap (take 1) (keep_kept is_pending c cs e))
  | inr e ↦
      let tail : IsQueued w false cs = (rw e at (h.3)) in
      let a : c.active ≡ false = h.0 ∙ rw e refl in
      keep_skipped (λ d. d.active) c cs a
      ∙ active_first w cs tail
      ∙ sym (ap (take 1) (keep_skipped is_pending c cs e))
]

pub run_empty-IsValid : (os : List Op) → IsValid (run os empty).cards
run_empty-IsValid os = run-IsValid os empty (record { calm = tt; queued = tt })

-- On a screen that starts empty, whatever is asked, answered, cancelled or removed and in whatever
-- order, the active cards are the first of the cards that wait for an answer, or none if none waits.
pub run-active :
    (os : List Op) → active_cards (run os empty).cards ≡ take 1 (pending (run os empty).cards)
run-active os = active_first _ (run os empty).cards (run_empty-IsValid os).queued
