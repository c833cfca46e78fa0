-- ===== src/Series/Merge.antt =====
-- The sums of `mergeInterfaceHistory`.
use tuxwall.Base.{ℕ, suc, ◌+◌, ◌≤◌, ◌≡◌, refl, List, [], ◌∷◌, ◌==◌, max, if◌then◌else◌, arith}
use tuxwall.Base.Sort.{sort, insert, IsSorted, sort-IsSorted}
use tuxwall.Series.{Sample, add_sample, add_history, add_interfaces, later, merge_interface_history}

-- What the samples of one time add up to, and how many there are.
module _ (ts : ℕ) where
  abbrev pub received : List Sample → ℕ
  received [] = 0
  received (s ∷ ss) = if s.ts == ts then s.rx + received ss else received ss

  abbrev pub transmitted : List Sample → ℕ
  transmitted [] = 0
  transmitted (s ∷ ss) = if s.ts == ts then s.tx + transmitted ss else transmitted ss

  abbrev pub occurrences : List Sample → ℕ
  occurrences [] = 0
  occurrences (s ∷ ss) = if s.ts == ts then suc (occurrences ss) else occurrences ss

  abbrev pub all_received : List (List Sample) → ℕ
  all_received [] = 0
  all_received (h ∷ hs) = received h + all_received hs

  abbrev pub all_transmitted : List (List Sample) → ℕ
  all_transmitted [] = 0
  all_transmitted (h ∷ hs) = transmitted h + all_transmitted hs

  add_sample-sums :
      (s : Sample) (cs : List Sample)
      → (received (add_sample s cs) ≡ received cs + (if s.ts == ts then s.rx else 0))
        × (transmitted (add_sample s cs) ≡ transmitted cs + (if s.ts == ts then s.tx else 0))
  unfolding add_sample
  add_sample-sums s [] = ground arith
  add_sample-sums s (c ∷ cs) = ground (arith, add_sample-sums s cs)

  add_sample-occurrences :
      (s : Sample) (cs : List Sample)
      → occurrences (add_sample s cs)
        ≡ (if s.ts == ts then max 1 (occurrences cs) else occurrences cs)
  unfolding add_sample
  add_sample-occurrences s [] = ground arith
  add_sample-occurrences s (c ∷ cs) = ground (arith, add_sample-occurrences s cs)

  add_history-sums :
      (ss cs : List Sample)
      → (received (add_history ss cs) ≡ received cs + received ss)
        × (transmitted (add_history ss cs) ≡ transmitted cs + transmitted ss)
  unfolding add_history
  add_history-sums [] cs = omega arith
  add_history-sums (s ∷ ss) cs =
      ground (arith, add_history-sums ss (add_sample s cs), add_sample-sums s cs)

  add_history-occurrences :
      (ss cs : List Sample) → occurrences cs ≤ 1 → occurrences (add_history ss cs) ≤ 1
  unfolding add_history
  add_history-occurrences [] cs h = h
  add_history-occurrences (s ∷ ss) cs h =
      add_history-occurrences ss (add_sample s cs) (ground (arith, h, add_sample-occurrences s cs))

  add_interfaces-sums :
      (hs : List (List Sample)) (cs : List Sample)
      → (received (add_interfaces hs cs) ≡ received cs + all_received hs)
        × (transmitted (add_interfaces hs cs) ≡ transmitted cs + all_transmitted hs)
  unfolding add_interfaces
  add_interfaces-sums [] cs = omega arith
  add_interfaces-sums (h ∷ hs) cs =
      ground (arith, add_interfaces-sums hs (add_history h cs), add_history-sums h cs)

  add_interfaces-occurrences :
      (hs : List (List Sample)) (cs : List Sample)
      → occurrences cs ≤ 1
      → occurrences (add_interfaces hs cs) ≤ 1
  unfolding add_interfaces
  add_interfaces-occurrences [] cs e = e
  add_interfaces-occurrences (h ∷ hs) cs e =
      add_interfaces-occurrences hs (add_history h cs) (add_history-occurrences h cs e)

  insert-sums :
      (s : Sample) (cs : List Sample)
      → (received (insert later s cs) ≡ received (s ∷ cs))
        × (transmitted (insert later s cs) ≡ transmitted (s ∷ cs))
        × (occurrences (insert later s cs) ≡ occurrences (s ∷ cs))
  unfolding insert
  insert-sums s [] = (refl, refl, refl)
  insert-sums s (c ∷ cs) = ground (arith, insert-sums s cs)

  sort-sums :
      (cs : List Sample)
      → (received (sort later cs) ≡ received cs)
        × (transmitted (sort later cs) ≡ transmitted cs)
        × (occurrences (sort later cs) ≡ occurrences cs)
  unfolding sort
  sort-sums [] = (refl, refl, refl)
  sort-sums (c ∷ cs) = ground (arith, insert-sums c (sort later cs), sort-sums cs)

  -- For each time: the merged series has the sums of what all interfaces received and sent then, in
  -- one sample at most, and its samples stand in the order of their times.
  pub merge_interface_history-sums :
      (hs : List (List Sample))
      → (received (merge_interface_history hs) ≡ all_received hs)
        × (transmitted (merge_interface_history hs) ≡ all_transmitted hs)
        × (occurrences (merge_interface_history hs) ≤ 1)
        × IsSorted later (merge_interface_history hs)
  unfolding merge_interface_history
  merge_interface_history-sums hs = (
    omega (arith, sort-sums (add_interfaces hs []), add_interfaces-sums hs []),
    omega (arith, sort-sums (add_interfaces hs []), add_interfaces-sums hs []),
    omega (arith, sort-sums (add_interfaces hs []), add_interfaces-occurrences hs []),
    sort-IsSorted later (λ x y h. ground (arith, h)) (λ x y z h k. ground (arith, h, k))
        (add_interfaces hs []),
  )
