-- ===== src/Core/Heap.antt =====
-- `std::collections::BinaryHeap` as the program uses it: a bag of entries from which `pop` takes a
-- greatest one. Which of several greatest entries comes first the standard library leaves open; here
-- it is the one that was pushed last, and the entries of the program's heaps never tie.
use mathlib.Core.List.{Perm}
use mathlib.Core.List.Perm
use des_cartes.Prelude.{
  suc, ◌≡◌, ◌≢◌, refl, Bool, true, false, Option, none, some, List, [], ◌∷◌, arith, Ordering,
  if◌then◌else◌, length, All, All-mono, if_ind, OnSome,
}

abbrev pub is_gt : Ordering → Bool
is_gt Ordering.gt = true
is_gt _ = false

-- `Ordering::then_with`.
abbrev pub then_with : Ordering → Ordering → Ordering
then_with Ordering.eq second = second
then_with first second = first

-- What the heap needs of `Ord::cmp`.
pub record Ord {ℓ} (A : Type ℓ) : Type ℓ where
  pub cmp : A → A → Ordering
  pub not_gt_trans :
      (a b c : A) → is_gt (cmp a b) ≡ false → is_gt (cmp b c) ≡ false → is_gt (cmp a c) ≡ false
  pub not_gt_total : (a b : A) → is_gt (cmp a b) ≡ true → is_gt (cmp b a) ≡ false
  pub not_gt_refl : (a : A) → is_gt (cmp a a) ≡ false

module _ {ℓ} {A : Type ℓ} ⦃o : Ord A⦄ where
  abbrev pub push : A → List A → List A
  push a h = a ∷ h

  -- The greater of an entry and the heap's greatest one, and what is left.
  abbrev pub pop_cons : A → List A → Option (A × List A) → Option (A × List A)
  pop_cons x xs none = some (x, xs)
  pop_cons x xs (some (m, rest)) = if is_gt (o.cmp m x) then some (m, x ∷ rest) else some (x, xs)

  unfoldable pub pop : List A → Option (A × List A)
  pop [] = none
  pop (x ∷ xs) = pop_cons x xs (pop xs)

  unfoldable pub peek : List A → Option A
  unfolding pop
  peek h = elim (pop h) [ none ↦ none | some (m, rest) ↦ some m ]

  -- `a` is no greater than `b`.
  abbrev pub Le : A → A → Type 0
  Le a b = is_gt (o.cmp a b) ≡ false

  -- The entry is a greatest one of the heap, and the rest holds the others.
  pub record Splits (h : List A) (r : A × List A) : Type ℓ where
    pub above : All (λ y. Le y r.0) h
    pub greatest : All (λ y. Le y r.0) r.1
    pub perm : Perm h (r.0 ∷ r.1)
    pub shorter : length h ≡ suc (length r.1)

  pop_cons-Splits :
      (x : A) (xs : List A) (r : Option (A × List A))
      → (r ≡ none → xs ≡ [])
      → OnSome (Splits xs) r
      → OnSome (Splits (x ∷ xs)) (pop_cons x xs r)
  pop_cons-Splits x xs none e h =
      let nil = e refl in
      rw nil
        (record { above = (o.not_gt_refl x, tt); greatest = tt; perm = Perm.rfl; shorter = refl })
  pop_cons-Splits x xs (some (m, rest)) e h =
      if_ind (OnSome (Splits (x ∷ xs))) (is_gt (o.cmp m x))
        (λ g. record {
          above = (o.not_gt_total m x g, h.above);
          greatest = (o.not_gt_total m x g, h.greatest);
          perm = Perm.trans (Perm.cons x h.perm) (Perm.swap m x rest);
          shorter = omega (arith, h.shorter);
        })
        (λ g.
          let under = All-mono xs (λ y k. o.not_gt_trans y m x k g) h.above in
          record {
            above = (o.not_gt_refl x, under);
            greatest = under;
            perm = Perm.rfl;
            shorter = refl;
          })

  pop_cons-ne_none : (x : A) (xs : List A) (r : Option (A × List A)) → pop_cons x xs r ≢ none
  pop_cons-ne_none x xs none e = cc
  pop_cons-ne_none x xs (some (m, rest)) e = ground arith

  -- `pop` fails on the empty heap only.
  pub pop-eq_none : (h : List A) → pop h ≡ none → h ≡ []
  unfolding pop
  pop-eq_none [] e = refl
  pop-eq_none (x ∷ xs) e = absurd (pop_cons-ne_none x xs (pop xs) e)

  pub pop-Splits : (h : List A) → OnSome (Splits h) (pop h)
  unfolding pop
  pop-Splits [] = tt
  pop-Splits (x ∷ xs) = pop_cons-Splits x xs (pop xs) (pop-eq_none xs) (pop-Splits xs)

module _ {ℓ κ} {A : Type ℓ} ⦃o : Ord A⦄ (P : A → Type κ) where
  abbrev pub Both : A × List A → Type κ
  Both r = P r.0 × All P r.1

  -- What holds of every entry holds of the popped one and of those that are left.
  pub pop-All : (h : List A) → All P h → OnSome Both (pop h)
  unfolding pop
  pop-All [] a = tt
  pop-All (x ∷ xs) a = go (pop xs) (pop-All xs a.1)
    where
      go : (r : Option (A × List A)) → OnSome Both r → OnSome Both (pop_cons x xs r)
      go none h = a
      go (some (m, rest)) h =
          if_ind (OnSome Both) (is_gt (o.cmp m x)) (λ _. (h.0, (a.0, h.1))) (λ _. a)
