-- ===== src/Prelude/Sums.antt =====
-- Sums of a weight over a list, which do not depend on its order.
use mathlib.Core.List.{Perm, foldr}
use mathlib.Core.List.Perm
use mathlib.Core.Path.{◌≡◌, refl, ap, sym, ◌∙◌}
use mathlib.Core.List.{List, [], ◌∷◌, ◌++◌, map}
use native.Mathlib.Nat.{ℕ_set}
use native.Mathlib.Omega.{arith}
use Prim.Native.Nat.{ℕ, ◌+◌, ◌≤◌}
use mathlib.Core.Option.{some, some_inj}
use mathlib.Core.Logic.{inl, inr}
use des_cartes.Prelude.Tests.{◌==◌, Bool-cases}
use des_cartes.Prelude.Lists.{length, lookup, remove_key}

abbrev pub sum {ℓ} : {A : Type ℓ} → (A → ℕ) → List A → ℕ
sum f [] = 0
sum f (x ∷ xs) = f x + sum f xs

sum-foldr {ℓ} : {A : Type ℓ} (f : A → ℕ) (xs : List A) → sum f xs ≡ foldr (λ x n. f x + n) 0 xs
sum-foldr f [] = refl
sum-foldr f (x ∷ xs) = ap (λ n. f x + n) (sum-foldr f xs)

pub sum-Perm {ℓ} : {A : Type ℓ} {xs ys : List A} (f : A → ℕ) → Perm xs ys → sum f xs ≡ sum f ys
sum-Perm {xs = xs} {ys} f p =
    sum-foldr f xs
    ∙ Perm.foldr-eq ℕ_set (λ x n. f x + n) (λ a b c. omega arith) p 0
    ∙ sym (sum-foldr f ys)

pub sum-append {ℓ} :
    {A : Type ℓ} (f : A → ℕ) (xs ys : List A) → sum f (xs ++ ys) ≡ sum f xs + sum f ys
sum-append f [] ys = omega arith
sum-append f (x ∷ xs) ys = omega (arith, sum-append f xs ys)

pub length-sum {ℓ} : {A : Type ℓ} (xs : List A) → length xs ≡ sum (λ x. 1) xs
length-sum [] = refl
length-sum (x ∷ xs) = omega (arith, length-sum xs)

pub sum-map {ℓ κ} :
    {A : Type ℓ} {B : Type κ} (f : B → ℕ) (g : A → B) (xs : List A)
    → sum f (map g xs) ≡ sum (λ x. f (g x)) xs
sum-map f g [] = refl
sum-map f g (x ∷ xs) = ap (λ n. f (g x) + n) (sum-map f g xs)

-- The weights of a map's entries when one of them is taken out.
module _ {ℓ} {V : Type ℓ} (f : V → ℕ) where
  abbrev pub weights : List (ℕ × V) → ℕ
  weights m = sum (λ (e : ℕ × V). f e.1) m

  pub weights-remove_key : (k : ℕ) (m : List (ℕ × V)) → weights (remove_key k m) ≤ weights m
  weights-remove_key k [] = omega arith
  weights-remove_key k ((j, v) ∷ m) = ground (arith, weights-remove_key k m)

  pub weights-lookup :
      (k : ℕ) (v : V) (m : List (ℕ × V))
      → lookup k m ≡ some v
      → f v + weights (remove_key k m) ≤ weights m
  weights-lookup k v [] e = absurd (ground (arith, e))
  weights-lookup k v ((j, w) ∷ m) e = elim (Bool-cases (j == k)) [
    | inl h ↦
        let same : w ≡ v = some_inj.0 (grind (arith, e, h)) in
        rw h (omega (arith, weights-remove_key k m, ap f same))
    | inr h ↦ rw h (omega (arith, weights-lookup k v m (grind (arith, e, h))))
  ]
