-- ===== src/Base/Sort.antt =====
-- `Array.prototype.sort` with a comparator: a stable sort, written as insertion from the right.
-- `after x y` stands for `comparator(x, y) > 0`.
use mathlib.Core.List.{Perm}
use mathlib.Core.List.Perm
use mathlib.Core.Path.{◌≡◌}
use mathlib.Core.Bool.{Bool, true, false}
use mathlib.Core.Logic.{inl, inr}
use mathlib.Core.List.{List, [], ◌∷◌}
use tuxwall.Base.Tests.{if◌then◌else◌, Bool-cases}
use tuxwall.Base.Lists.{All, keep}

module _ {ℓ} {A : Type ℓ} (after : A → A → Bool) where
  unfoldable pub insert : A → List A → List A
  insert x [] = x ∷ []
  insert x (y ∷ ys) = if after x y then y ∷ insert x ys else x ∷ y ∷ ys

  unfoldable pub sort : List A → List A
  unfolding insert
  sort [] = []
  sort (x ∷ xs) = insert x (sort xs)

  -- No element stands before one that the comparator puts in front of it.
  abbrev pub IsSorted : List A → Type 0
  IsSorted [] = Unit
  IsSorted (x ∷ xs) = All (λ y. after x y ≡ false) xs × IsSorted xs

  insert-perm : (x : A) (xs : List A) → Perm (insert x xs) (x ∷ xs)
  unfolding insert
  insert-perm x [] = Perm.refl (x ∷ [])
  insert-perm x (y ∷ ys) = elim (Bool-cases (after x y)) [
    | inl e ↦ rw e (Perm.trans (Perm.cons y (insert-perm x ys)) (Perm.swap x y ys))
    | inr e ↦ rw e (Perm.refl (x ∷ y ∷ ys))
  ]

  pub sort-perm : (xs : List A) → Perm (sort xs) xs
  unfolding sort
  sort-perm [] = Perm.refl []
  sort-perm (x ∷ xs) = Perm.trans (insert-perm x (sort xs)) (Perm.cons x (sort-perm xs))

  pub All-insert {κ} : (P : A → Type κ) (x : A) (xs : List A) → P x → All P xs → All P (insert x xs)
  unfolding insert
  All-insert P x [] px h = (px, tt)
  All-insert P x (y ∷ ys) px h = elim (Bool-cases (after x y)) [
    | inl e ↦ rw e (h.0, All-insert P x ys px h.1)
    | inr e ↦ rw e (px, (h.0, h.1))
  ]

  pub All-sort {κ} : (P : A → Type κ) (xs : List A) → All P xs → All P (sort xs)
  unfolding sort
  All-sort P [] h = tt
  All-sort P (x ∷ xs) h = All-insert P x (sort xs) h.0 (All-sort P xs h.1)

  module _ (asym : (x y : A) → after x y ≡ true → after y x ≡ false)
      (trans : (x y z : A) → after x y ≡ false → after y z ≡ false → after x z ≡ false) where
    below :
        (x y : A) (ys : List A)
        → after x y ≡ false
        → All (λ z. after y z ≡ false) ys
        → All (λ z. after x z ≡ false) ys
    below x y [] e h = tt
    below x y (z ∷ zs) e h = (trans x y z e h.0, below x y zs e h.1)

    insert-IsSorted : (x : A) (xs : List A) → IsSorted xs → IsSorted (insert x xs)
    unfolding insert
    insert-IsSorted x [] h = (tt, tt)
    insert-IsSorted x (y ∷ ys) h = elim (Bool-cases (after x y)) [
      | inl e ↦
          rw e (All-insert (λ z. after y z ≡ false) x ys (asym x y e) h.0, insert-IsSorted x ys h.1)
      | inr e ↦ rw e ((e, below x y ys e h.0), (h.0, h.1))
    ]

    pub sort-IsSorted : (xs : List A) → IsSorted (sort xs)
    unfolding sort
    sort-IsSorted [] = tt
    sort-IsSorted (x ∷ xs) = insert-IsSorted x (sort xs) (sort-IsSorted xs)

-- A filter before or after a sort.
module _ {ℓ} {A : Type ℓ} (after : A → A → Bool) (p : A → Bool) where
  keep-cons_perm :
      (x : A) (xs ys : List A)
      → Perm (keep p xs) (keep p ys)
      → Perm (keep p (x ∷ xs)) (keep p (x ∷ ys))
  keep-cons_perm x xs ys h = elim (Bool-cases (p x)) [
    | inl e ↦ rw e (Perm.cons x h)
    | inr e ↦ rw e h
  ]

  keep-swap_perm : (x y : A) (xs : List A) → Perm (keep p (x ∷ y ∷ xs)) (keep p (y ∷ x ∷ xs))
  keep-swap_perm x y xs = elim (Bool-cases (p x)) [
    | inl e ↦ elim (Bool-cases (p y)) [
      | inl f ↦ rw (e, f) (Perm.swap y x (keep p xs))
      | inr f ↦ rw (e, f) (Perm.refl (x ∷ keep p xs))
    ]
    | inr e ↦ rw e (Perm.refl (keep p (y ∷ xs)))
  ]

  keep-insert_perm : (x : A) (ys : List A) → Perm (keep p (insert after x ys)) (keep p (x ∷ ys))
  unfolding insert
  keep-insert_perm x [] = Perm.refl (keep p (x ∷ []))
  keep-insert_perm x (y ∷ ys) = elim (Bool-cases (after x y)) [
    | inl e ↦ rw e (
        Perm.trans (keep-cons_perm y (insert after x ys) (x ∷ ys) (keep-insert_perm x ys))
          (keep-swap_perm y x ys))
    | inr e ↦ rw e (Perm.refl (keep p (x ∷ y ∷ ys)))
  ]

  pub keep-sort_perm : (xs : List A) → Perm (keep p (sort after xs)) (keep p xs)
  unfolding sort
  keep-sort_perm [] = Perm.refl []
  keep-sort_perm (x ∷ xs) =
      Perm.trans (keep-insert_perm x (sort after xs))
        (keep-cons_perm x (sort after xs) xs (keep-sort_perm xs))
