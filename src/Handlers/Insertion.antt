-- ===== src/Handlers/Insertion.antt =====
-- An instance of `qsort`'s contract: insertion sort. It shows that the assumption of the responder
-- table can be met.
use gusher.Base.{
  ℤ, pos, ◌≤ℤ◌, ◌≡◌, inl, inr, true, false, Bool-cases, List, [], ◌∷◌, ltb_ℤ, if◌then◌else◌, All,
  arith,
}
use gusher.Handlers.{IsSorted, IsPreorder, Qsort}
use mathlib.Core.List.{Perm}
use mathlib.Core.List.Perm

module _ {A : Type 0} (cmp : A → A → ℤ) where
  insert : A → List A → List A
  insert a [] = a ∷ []
  insert a (x ∷ xs) =
      let later = insert a xs in if ltb_ℤ (pos 0) (cmp a x) then x ∷ later else a ∷ x ∷ xs

  unfoldable pub insertion_sort : List A → List A
  unfolding insert
  insertion_sort [] = []
  insertion_sort (x ∷ xs) = insert x (insertion_sort xs)

  insert-perm : (a : A) (xs : List A) → Perm (insert a xs) (a ∷ xs)
  unfolding insert
  insert-perm a [] = Perm.refl (a ∷ [])
  insert-perm a (x ∷ xs) = elim (Bool-cases (ltb_ℤ (pos 0) (cmp a x))) [
    | inl h ↦ rw h (Perm.trans (Perm.cons x (insert-perm a xs)) (Perm.swap a x xs))
    | inr h ↦ rw h (Perm.refl (a ∷ x ∷ xs))
  ]

  pub insertion_sort-perm : (xs : List A) → Perm (insertion_sort xs) xs
  unfolding insertion_sort
  insertion_sort-perm [] = Perm.refl []
  insertion_sort-perm (x ∷ xs) =
      Perm.trans (insert-perm x (insertion_sort xs)) (Perm.cons x (insertion_sort-perm xs))

  All-insert : (P : A → Type 0) (a : A) (xs : List A) → P a → All P xs → All P (insert a xs)
  unfolding insert
  All-insert P a [] p h = (p, tt)
  All-insert P a (x ∷ xs) p h = elim (Bool-cases (ltb_ℤ (pos 0) (cmp a x))) [
    | inl t ↦ rw t (h.0, All-insert P a xs p h.1)
    | inr t ↦ rw t (p, h)
  ]

  All-le :
      IsPreorder cmp
      → (a x : A) (xs : List A) → cmp a x ≤ℤ pos 0
      → All (λ y. cmp x y ≤ℤ pos 0) xs
      → All (λ y. cmp a y ≤ℤ pos 0) xs
  All-le o a x [] h k = tt
  All-le o a x (y ∷ xs) h k = (o.trans a x y h k.0, All-le o a x xs h k.1)

  not_gt : (a x : A) → ltb_ℤ (pos 0) (cmp a x) ≡ false → cmp a x ≤ℤ pos 0
  not_gt a x h = ground arith

  gt_le : IsPreorder cmp → (a x : A) → ltb_ℤ (pos 0) (cmp a x) ≡ true → cmp x a ≤ℤ pos 0
  gt_le o a x h = elim (o.total a x) [ inl k ↦ absurd (ground arith) | inr k ↦ k ]

  insert-IsSorted :
      IsPreorder cmp → (a : A) (xs : List A) → IsSorted cmp xs → IsSorted cmp (insert a xs)
  unfolding insert
  insert-IsSorted o a [] s = (tt, tt)
  insert-IsSorted o a (x ∷ xs) s = elim (Bool-cases (ltb_ℤ (pos 0) (cmp a x))) [
    | inl t ↦
        rw t
          (All-insert (λ y. cmp x y ≤ℤ pos 0) a xs (gt_le o a x t) s.0, insert-IsSorted o a xs s.1)
    | inr t ↦ rw t ((not_gt a x t, All-le o a x xs (not_gt a x t) s.0), s)
  ]

  pub insertion_sort-IsSorted : (xs : List A) → IsPreorder cmp → IsSorted cmp (insertion_sort xs)
  unfolding insertion_sort
  insertion_sort-IsSorted [] o = tt
  insertion_sort-IsSorted (x ∷ xs) o =
      insert-IsSorted o x (insertion_sort xs) (insertion_sort-IsSorted xs o)

abbrev pub insertion_qsort : {A : Type 0} → Qsort A
insertion_qsort = record {
  sort = insertion_sort;
  sort-perm = insertion_sort-perm;
  sort-IsSorted = insertion_sort-IsSorted;
}
