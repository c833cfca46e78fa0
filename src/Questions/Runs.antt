-- ===== src/Questions/Runs.antt =====
-- Rules that each step of a question's card keeps, and so each run.
use tuxwall.Base.{
  ℕ, suc, ◌≡◌, refl, String, Option, none, some, List, [], ◌∷◌, get_elem?, Bool-cases, inl, inr,
  str_eq, not, ◌||◌,
}
use tuxwall.Questions.{
  Block, Sheet, Event, chosen, written, submitted, skipped, arrived, settled, aborted, choose_label,
  answer_text, set_block, choose_on, choose_option, choose_in, choose, write_in, write, on_buttons,
  submit, skip, close, abort, arrive, handle, run, choice_submits,
}

-- how many answers to requests were errors
abbrev pub refused : Event → ℕ → ℕ
refused (arrived (some m)) n = suc n
refused (arrived none) n = n
refused (chosen qi j) n = n
refused (written qi v) n = n
refused submitted n = n
refused skipped n = n
refused (settled note) n = n
refused aborted n = n

abbrev pub refusals : List Event → ℕ → ℕ
refusals [] n = n
refusals (e ∷ es) n = refusals es (refused e n)

-- `I n` is kept with `n` errors so far, if the operations keep it.
pub record IsKept (I : ℕ → Sheet → Type 0) : Type 0 where
  pub on_choice :
      (n qi j : ℕ) (l : String) (s : Sheet) (b : Block)
      → get_elem? s.blocks qi ≡ some b
      → get_elem? b.question.options j ≡ some l
      → I n s
      → I n (record s { blocks = set_block qi (choose_label j l b) s.blocks })
  pub on_text :
      (n qi : ℕ) (v : String) (s : Sheet) (b : Block)
      → get_elem? s.blocks qi ≡ some b
      → I n s
      → I n (record s { blocks = set_block qi (answer_text v b) s.blocks })
  pub on_submit : (n : ℕ) (s : Sheet) → s.closed ≡ none → I n s → I n (submit s)
  pub on_skip : (n : ℕ) (s : Sheet) → s.closed ≡ none → I n s → I n (skip s)
  pub on_close : (n : ℕ) (note : String) (s : Sheet) → I n s → I n (close note s)
  pub on_abort : (n : ℕ) (s : Sheet) → s.closed ≡ none → I n s → I n (abort s)
  pub on_arrive :
      (n : ℕ) (e : Option String) (s : Sheet)
      → I n s
      → I (refused (arrived e) n) (arrive e s.in_flight s)

module _ (I : ℕ → Sheet → Type 0) (k : IsKept I) where
  on-choose_on :
      (n qi j : ℕ) (l : String) (s : Sheet) (b : Block)
      → get_elem? s.blocks qi ≡ some b
      → get_elem? b.question.options j ≡ some l
      → s.closed ≡ none
      → I n s
      → I n (choose_on qi j s b l)
  unfolding choose_on
  on-choose_on n qi j l s b e f c h =
      let h' = k.on_choice n qi j l s b e f h in
      elim (Bool-cases (choice_submits l b)) [
        | inl t ↦ rw t (k.on_submit n _ c h')
        | inr t ↦ rw t h'
      ]

  on-choose_option :
      (n qi j : ℕ) (s : Sheet) (b : Block) (o : Option String)
      → get_elem? s.blocks qi ≡ some b
      → get_elem? b.question.options j ≡ o
      → s.closed ≡ none
      → I n s
      → I n (choose_option qi j s b o)
  unfolding choose_option
  on-choose_option n qi j s b none e f c h = h
  on-choose_option n qi j s b (some l) e f c h = on-choose_on n qi j l s b e f c h

  on-choose_in :
      (n qi j : ℕ) (s : Sheet) (o : Option Block)
      → get_elem? s.blocks qi ≡ o
      → s.closed ≡ none
      → I n s
      → I n (choose_in qi j s o)
  unfolding choose_in
  on-choose_in n qi j s none e c h = h
  on-choose_in n qi j s (some b) e c h = on-choose_option n qi j s b _ e refl c h

  on-write_in :
      (n qi : ℕ) (v : String) (s : Sheet) (o : Option Block)
      → get_elem? s.blocks qi ≡ o
      → s.closed ≡ none
      → I n s
      → I n (write_in qi v s o)
  unfolding write_in
  on-write_in n qi v s none e c h = h
  on-write_in n qi v s (some b) e c h = elim (Bool-cases (str_eq v "" || not b.question.custom)) [
    | inl t ↦ rw t h
    | inr t ↦ rw t (k.on_submit n _ c (k.on_text n qi v s b e h))
  ]

  on-on_buttons :
      (n : ℕ) (f : Sheet → Sheet) (s : Sheet) (o : Option String)
      → (o ≡ none → I n (f s))
      → I n s
      → I n (on_buttons o f s)
  on-on_buttons n f s none g h = g refl
  on-on_buttons n f s (some m) g h = h

  on-handle : (n : ℕ) (e : Event) (s : Sheet) → I n s → I (refused e n) (handle e s)
  unfolding handle choose write
  on-handle n (chosen qi j) s h =
      on-on_buttons n (choose qi j) s s.closed (λ c. on-choose_in n qi j s _ refl c h) h
  on-handle n (written qi v) s h =
      on-on_buttons n (write qi v) s s.closed (λ c. on-write_in n qi v s _ refl c h) h
  on-handle n submitted s h = on-on_buttons n submit s s.closed (λ c. k.on_submit n s c h) h
  on-handle n skipped s h = on-on_buttons n skip s s.closed (λ c. k.on_skip n s c h) h
  on-handle n (arrived e) s h = k.on_arrive n e s h
  on-handle n (settled note) s h = k.on_close n note s h
  on-handle n aborted s h = on-on_buttons n abort s s.closed (λ c. k.on_abort n s c h) h

  pub run-kept : (n : ℕ) (es : List Event) (s : Sheet) → I n s → I (refusals es n) (run es s)
  unfolding run
  run-kept n [] s h = h
  run-kept n (e ∷ es) s h = run-kept (refused e n) es (handle e s) (on-handle n e s h)
