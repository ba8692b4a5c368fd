-- ===== src/Common/Sort.antt =====
-- `sort.Slice` by a number, the greatest first (the newest, by start time) or the least first.
-- Go leaves the order of equal elements open; here they keep their order.
use Prim.Native.Nat.{ℕ, suc, ◌+◌, ◌≤◌}
use mathlib.Core.Path.{◌≡◌, refl}
use mathlib.Core.List.Perm
use mathlib.Core.List.{List, [], ◌∷◌, Perm}
use mathlib.Core.Logic.{inl, inr}
use native.Mathlib.Omega.{arith}
use remote_cli.Common.Tests.{leb, if◌then◌else◌, Bool-cases}
use remote_cli.Common.Lists.{length}

module _ {ℓ κ} {A : Type ℓ} where
  abbrev pub All : (A → Type κ) → List A → Type κ
  All P [] = Unit
  All P (x ∷ xs) = P x × All P xs

  -- Every element stands in the relation to all later ones.
  abbrev pub Pairwise : (A → A → Type κ) → List A → Type κ
  Pairwise R [] = Unit
  Pairwise R (x ∷ xs) = All (R x) xs × Pairwise R xs

module _ {ℓ} {A : Type ℓ} (key : A → ℕ) where
  unfoldable pub insert_newest : A → List A → List A
  insert_newest x [] = x ∷ []
  insert_newest x (y ∷ ys) = if leb (key y) (key x) then x ∷ y ∷ ys else y ∷ insert_newest x ys

  unfoldable pub newest_first : List A → List A
  newest_first [] = []
  newest_first (x ∷ xs) = insert_newest x (newest_first xs)

  unfoldable pub insert_oldest : A → List A → List A
  insert_oldest x [] = x ∷ []
  insert_oldest x (y ∷ ys) = if leb (key x) (key y) then x ∷ y ∷ ys else y ∷ insert_oldest x ys

  unfoldable pub oldest_first : List A → List A
  oldest_first [] = []
  oldest_first (x ∷ xs) = insert_oldest x (oldest_first xs)

module _ {ℓ κ} {A : Type ℓ} (P : A → Type κ) where
  pub All-mono {ι} : (Q : A → Type ι) (xs : List A) → ((x : A) → P x → Q x) → All P xs → All Q xs
  All-mono Q [] f h = tt
  All-mono Q (x ∷ xs) f h = (f x h.0, All-mono Q xs f h.1)

  module _ (key : A → ℕ) where
    All-insert_newest : (x : A) (xs : List A) → P x → All P xs → All P (insert_newest key x xs)
    unfolding insert_newest
    All-insert_newest x [] p h = (p, tt)
    All-insert_newest x (y ∷ ys) p h = elim (Bool-cases (leb (key y) (key x))) [
      | inl e ↦ rw e (p, h)
      | inr e ↦ rw e (h.0, All-insert_newest x ys p h.1)
    ]

    pub All-newest_first : (xs : List A) → All P xs → All P (newest_first key xs)
    unfolding newest_first
    All-newest_first [] h = tt
    All-newest_first (x ∷ xs) h =
        All-insert_newest x (newest_first key xs) h.0 (All-newest_first xs h.1)

module _ {ℓ κ} {A : Type ℓ} (R : A → A → Type κ) (flip : (x y : A) → R x y → R y x)
    (key : A → ℕ) where
  Pairwise-insert_newest :
      (x : A) (xs : List A) → All (R x) xs → Pairwise R xs → Pairwise R (insert_newest key x xs)
  unfolding insert_newest
  Pairwise-insert_newest x [] a h = (tt, tt)
  Pairwise-insert_newest x (y ∷ ys) a h = elim (Bool-cases (leb (key y) (key x))) [
    | inl e ↦ rw e (a, h)
    | inr e ↦
        rw e
          (All-insert_newest (R y) key x ys (flip x y a.0) h.0, Pairwise-insert_newest x ys a.1 h.1)
  ]

  -- A symmetric relation between all elements does not depend on their order.
  pub Pairwise-newest_first : (xs : List A) → Pairwise R xs → Pairwise R (newest_first key xs)
  unfolding newest_first
  Pairwise-newest_first [] h = tt
  Pairwise-newest_first (x ∷ xs) h =
      Pairwise-insert_newest x (newest_first key xs) (All-newest_first (R x) key xs h.0)
        (Pairwise-newest_first xs h.1)

module _ {ℓ} {A : Type ℓ} (key : A → ℕ) where
  length-insert_newest : (x : A) (xs : List A) → length (insert_newest key x xs) ≡ suc (length xs)
  unfolding insert_newest
  length-insert_newest x [] = refl
  length-insert_newest x (y ∷ ys) = ground (arith, length-insert_newest x ys)

  pub length-newest_first : (xs : List A) → length (newest_first key xs) ≡ length xs
  unfolding newest_first
  length-newest_first [] = refl
  length-newest_first (x ∷ xs) =
      omega (arith, length-insert_newest x (newest_first key xs), length-newest_first xs)

  abbrev pub Newer : A → A → Type 0
  Newer x y = key y ≤ key x

  insert_newest-sorted :
      (x : A) (xs : List A) → Pairwise Newer xs → Pairwise Newer (insert_newest key x xs)
  unfolding insert_newest
  insert_newest-sorted x [] h = (tt, tt)
  insert_newest-sorted x (y ∷ ys) h = elim (Bool-cases (leb (key y) (key x))) [
    | inl e ↦
        let below : key y ≤ key x = ground arith in
        rw e ((below, All-mono (Newer y) (Newer x) ys (λ z k. omega arith) h.0), h)
    | inr e ↦
        let above : key x ≤ key y = ground arith in
        rw e (All-insert_newest (Newer y) key x ys above h.0, insert_newest-sorted x ys h.1)
  ]

  pub newest_first-sorted : (xs : List A) → Pairwise Newer (newest_first key xs)
  unfolding newest_first
  newest_first-sorted [] = tt
  newest_first-sorted (x ∷ xs) =
      insert_newest-sorted x (newest_first key xs) (newest_first-sorted xs)

-- A sum over a list does not depend on the order.
unfoldable pub sum_by {ℓ} : {A : Type ℓ} → (A → ℕ) → List A → ℕ
sum_by f [] = 0
sum_by f (x ∷ xs) = f x + sum_by f xs

module _ {ℓ} {A : Type ℓ} (key f : A → ℕ) where
  sum_by-insert_newest :
      (x : A) (xs : List A) → sum_by f (insert_newest key x xs) ≡ f x + sum_by f xs
  unfolding insert_newest sum_by
  sum_by-insert_newest x [] = refl
  sum_by-insert_newest x (y ∷ ys) = ground (arith, sum_by-insert_newest x ys)

  pub sum_by-newest_first : (xs : List A) → sum_by f (newest_first key xs) ≡ sum_by f xs
  unfolding newest_first sum_by
  sum_by-newest_first [] = refl
  sum_by-newest_first (x ∷ xs) =
      omega (arith, sum_by-insert_newest x (newest_first key xs), sum_by-newest_first xs)

module _ {ℓ} {A : Type ℓ} (key : A → ℕ) where
  abbrev pub Older : A → A → Type 0
  Older x y = key x ≤ key y

  insert_oldest-perm : (x : A) (xs : List A) → Perm (insert_oldest key x xs) (x ∷ xs)
  unfolding insert_oldest
  insert_oldest-perm x [] = Perm.refl (x ∷ [])
  insert_oldest-perm x (y ∷ ys) = elim (Bool-cases (leb (key x) (key y))) [
    | inl e ↦ rw e (Perm.refl (x ∷ y ∷ ys))
    | inr e ↦ rw e (Perm.trans (Perm.cons y (insert_oldest-perm x ys)) (Perm.swap x y ys))
  ]

  pub oldest_first-perm : (xs : List A) → Perm (oldest_first key xs) xs
  unfolding oldest_first
  oldest_first-perm [] = Perm.refl []
  oldest_first-perm (x ∷ xs) =
      Perm.trans (insert_oldest-perm x (oldest_first key xs)) (Perm.cons x (oldest_first-perm xs))

  All-insert_oldest :
      (P : A → Type 0) (x : A) (xs : List A) → P x → All P xs → All P (insert_oldest key x xs)
  unfolding insert_oldest
  All-insert_oldest P x [] p h = (p, tt)
  All-insert_oldest P x (y ∷ ys) p h = elim (Bool-cases (leb (key x) (key y))) [
    | inl e ↦ rw e (p, h)
    | inr e ↦ rw e (h.0, All-insert_oldest P x ys p h.1)
  ]

  insert_oldest-sorted :
      (x : A) (xs : List A) → Pairwise Older xs → Pairwise Older (insert_oldest key x xs)
  unfolding insert_oldest
  insert_oldest-sorted x [] h = (tt, tt)
  insert_oldest-sorted x (y ∷ ys) h = elim (Bool-cases (leb (key x) (key y))) [
    | inl e ↦
        let below : key x ≤ key y = ground arith in
        rw e ((below, All-mono (Older y) (Older x) ys (λ z k. omega arith) h.0), h)
    | inr e ↦
        let above : key y ≤ key x = ground arith in
        rw e (All-insert_oldest (Older y) x ys above h.0, insert_oldest-sorted x ys h.1)
  ]

  pub oldest_first-sorted : (xs : List A) → Pairwise Older (oldest_first key xs)
  unfolding oldest_first
  oldest_first-sorted [] = tt
  oldest_first-sorted (x ∷ xs) =
      insert_oldest-sorted x (oldest_first key xs) (oldest_first-sorted xs)

  pub All-oldest_first : (P : A → Type 0) (xs : List A) → All P xs → All P (oldest_first key xs)
  unfolding oldest_first
  All-oldest_first P [] h = tt
  All-oldest_first P (x ∷ xs) h =
      All-insert_oldest P x (oldest_first key xs) h.0 (All-oldest_first P xs h.1)
