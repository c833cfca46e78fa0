-- ===== src/Questions/Posts.antt =====
-- What a question's card posts, and how often.
use tuxwall.Base.{
  ℕ, zero, suc, if-elim, ◌+◌, ◌≤◌, ◌<◌, ◌≡◌, refl, ap, ◌∙◌, String, Bool, true, false, ◌||◌, not,
  Option, none, some, List, [], ◌∷◌, map, length, keep, ◌++◌, every, arith, All, All-append,
  if◌then◌else◌, or-eq-false,
}
use tuxwall.Questions.{
  Question, Block, Request, reply, reject, Sheet, Event, is_answered, all_answers, set_block,
  submit, skip, close, abort, arrive, run, new_sheet, new_block, arrived,
}
use tuxwall.Questions.Runs.{IsKept, run-kept, refusals, refused}

-- A reply answers each of `n` questions.
abbrev pub IsFull : ℕ → Request → Type 0
IsFull n (reply answers) = (length answers ≡ n) × All (λ a. 0 < length a) answers
IsFull n (reject by_abort) = Unit

pub length-set_block : (i : ℕ) (b : Block) (bs : List Block) → length (set_block i b bs) ≡ length bs
unfolding set_block
length-set_block i b [] = refl
length-set_block zero b (c ∷ bs) = refl
length-set_block (suc i) b (c ∷ bs) = omega (arith, length-set_block i b bs)

length-all_answers : (bs : List Block) → length (all_answers bs) ≡ length bs
length-all_answers [] = refl
length-all_answers (b ∷ bs) = omega (arith, length-all_answers bs)

answered-All :
    (bs : List Block) → every is_answered bs ≡ true → All (λ a. 0 < length a) (all_answers bs)
answered-All [] e = tt
answered-All (b ∷ bs) e = (answered b (ground (arith, e)), answered-All bs (ground (arith, e)))
  where
    answered : (c : Block) → is_answered c ≡ true → 0 < length c.answers
    answered c h =
        elim c.answers as (λ a. (elim a [ [] ↦ false | x ∷ xs ↦ true ]) ≡ true → 0 < length a) [
          | [] ↦ λ k. ground (arith, k)
          | x ∷ xs ↦ λ k. omega arith
        ]
          h

abbrev AllFull : ℕ → ℕ → Sheet → Type 0
AllFull q n s = (length s.blocks ≡ q) × All (IsFull q) s.posted

submit-AllFull : (q n : ℕ) (s : Sheet) → AllFull q n s → AllFull q n (submit s)
unfolding submit
submit-AllFull q n s h =
    if-elim (AllFull q n) (s.sent || not (every is_answered s.blocks)) s _ (λ e. h)
      (λ e.
        let (a, b) = or-eq-false (s.sent) _ e in
        (
          h.0,
          All-append (IsFull q) s.posted _ h.1
              ((length-all_answers s.blocks ∙ h.0, answered-All s.blocks (ground (arith, b))), tt),
        ))

skip-AllFull : (q n : ℕ) (s : Sheet) → AllFull q n s → AllFull q n (skip s)
unfolding skip
skip-AllFull q n s h =
    if-elim (AllFull q n) s.sent s _ (λ e. h)
      (λ e. (h.0, All-append (IsFull q) s.posted _ h.1 (tt, tt)))

close-AllFull : (q n : ℕ) (note : String) (s : Sheet) → AllFull q n s → AllFull q n (close note s)
unfolding close
close-AllFull q n note s h = ground (arith, h)

abort-AllFull : (q n : ℕ) (s : Sheet) → AllFull q n s → AllFull q n (abort s)
unfolding abort
abort-AllFull q n s h = close-AllFull q n _ _ (h.0, All-append (IsFull q) s.posted _ h.1 (tt, tt))

arrive-AllFull :
    (q n : ℕ) (e : Option String) (r : Option Request) (s : Sheet)
    → AllFull q n s
    → AllFull q n (arrive e r s)
unfolding arrive
arrive-AllFull q n e none s h = h
arrive-AllFull q n none (some r) s h = close-AllFull q n _ _ h
arrive-AllFull q n (some m) (some r) s h = h

new_sheet-AllFull : (qs : List Question) → AllFull (length qs) 0 (new_sheet qs)
new_sheet-AllFull qs = (length-new qs, tt)
  where
    length-new : (ps : List Question) → length (map new_block ps) ≡ length ps
    length-new [] = refl
    length-new (p ∷ ps) = omega (arith, length-new ps)

-- Whatever is clicked, typed and answered in whatever order: every reply that a question's card
-- posts has an answer to each of its questions, and none of them is empty.
pub run-IsFull :
    (qs : List Question) (es : List Event) → All (IsFull (length qs)) (run es (new_sheet qs)).posted
run-IsFull qs es =
    (run-kept (AllFull (length qs)) rules 0 es (new_sheet qs) (new_sheet-AllFull qs)).1
  where
    rules : IsKept (AllFull (length qs))
    rules = record {
      on_choice = λ n qi j l s b e f h. (length-set_block qi _ s.blocks ∙ h.0, h.1);
      on_text = λ n qi v s b e h. (length-set_block qi _ s.blocks ∙ h.0, h.1);
      on_submit = λ n s c h. submit-AllFull (length qs) n s h;
      on_skip = λ n s c h. skip-AllFull (length qs) n s h;
      on_close = λ n note s h. close-AllFull (length qs) n note s h;
      on_abort = λ n s c h. abort-AllFull (length qs) n s h;
      on_arrive = λ n e s h. arrive-AllFull (length qs) n e s.in_flight s h;
    }

abbrev is_closed : Option String → Bool
is_closed none = false
is_closed (some n) = true

-- 1 where the card can post.
abbrev room : Sheet → ℕ
room s = if s.sent || is_closed s.closed then 0 else 1

abbrev pub by_abort : Request → Bool
by_abort (reply answers) = false
by_abort (reject b) = b

-- The requests that were posted for a click or a text, and those of an abort.
abbrev pub by_user : List Request → ℕ
by_user rs = length (keep (λ r. not (by_abort r)) rs)

abbrev pub by_aborts : List Request → ℕ
by_aborts rs = length (keep by_abort rs)

by_user-append : (xs ys : List Request) → by_user (xs ++ ys) ≡ by_user xs + by_user ys
by_user-append [] ys = omega arith
by_user-append (x ∷ xs) ys = ground (arith, by_user-append xs ys)

by_aborts-append : (xs ys : List Request) → by_aborts (xs ++ ys) ≡ by_aborts xs + by_aborts ys
by_aborts-append [] ys = omega arith
by_aborts-append (x ∷ xs) ys = ground (arith, by_aborts-append xs ys)

-- With `n` errors so far; only a card that is settled has a request of an abort.
abbrev IsCounted : ℕ → Sheet → Type 0
IsCounted n s =
    (by_user s.posted + room s ≤ n + 1)
    × (by_aborts s.posted ≤ (if is_closed s.closed then 1 else 0))

submit-IsCounted : (n : ℕ) (s : Sheet) → s.closed ≡ none → IsCounted n s → IsCounted n (submit s)
unfolding submit
submit-IsCounted n s c h =
    if-elim (IsCounted n) (s.sent || not (every is_answered s.blocks)) s _ (λ e. h)
      (λ e.
        let more = reply (all_answers s.blocks) ∷ [] in
        (
          ground (arith, ap is_closed c, e, by_user-append s.posted more, h.0),
          ground (arith, by_aborts-append s.posted more, h.1),
        ))

skip-IsCounted : (n : ℕ) (s : Sheet) → s.closed ≡ none → IsCounted n s → IsCounted n (skip s)
unfolding skip
skip-IsCounted n s c h =
    if-elim (IsCounted n) s.sent s _ (λ e. h)
      (λ e.
        let more = reject false ∷ [] in
        (
          ground (arith, ap is_closed c, e, by_user-append s.posted more, h.0),
          ground (arith, by_aborts-append s.posted more, h.1),
        ))

close-IsCounted : (n : ℕ) (note : String) (s : Sheet) → IsCounted n s → IsCounted n (close note s)
unfolding close
close-IsCounted n note s h = (ground (arith, h.0), ground (arith, h.1))

abort-IsCounted : (n : ℕ) (s : Sheet) → s.closed ≡ none → IsCounted n s → IsCounted n (abort s)
unfolding abort close
abort-IsCounted n s c h =
    let more = reject true ∷ [] in
    (
      ground (arith, c, by_user-append s.posted more, h.0),
      ground (arith, c, ap is_closed c, by_aborts-append s.posted more, h.1),
    )

arrive-IsCounted :
    (n : ℕ) (e : Option String) (r : Option Request) (s : Sheet)
    → IsCounted n s
    → IsCounted (refused (arrived e) n) (arrive e r s)
unfolding arrive
arrive-IsCounted n none none s h = h
arrive-IsCounted n (some m) none s h = (omega (arith, h.0), h.1)
arrive-IsCounted n none (some r) s h = close-IsCounted n _ _ h
arrive-IsCounted n (some m) (some r) s h = (ground (arith, h.0), h.1)

-- Whatever is clicked, typed, answered and aborted in whatever order: for what the user does a
-- question's card posts at most one request more than answers were errors, so without an error one
-- at most; and aborts make it post at most one reject more.
pub run-posted_le :
    (qs : List Question) (es : List Event)
    → (by_user (run es (new_sheet qs)).posted ≤ refusals es 0 + 1)
      × (by_aborts (run es (new_sheet qs)).posted ≤ 1)
run-posted_le qs es =
    let h = run-kept IsCounted rules 0 es (new_sheet qs) (omega arith, omega arith) in
    (omega (arith, h.0), at_most_one _ _ h.1)
  where
    at_most_one : (b : Bool) (n : ℕ) → n ≤ (if b then 1 else 0) → n ≤ 1
    at_most_one true n h = h
    at_most_one false n h = omega (arith, h)

    rules : IsKept IsCounted
    rules = record {
      on_choice = λ n qi j l s b e f h. h;
      on_text = λ n qi v s b e h. h;
      on_submit = submit-IsCounted;
      on_skip = skip-IsCounted;
      on_close = close-IsCounted;
      on_abort = abort-IsCounted;
      on_arrive = λ n e s h. arrive-IsCounted n e s.in_flight s h;
    }
