-- ===== src/Prelude/Members.antt =====
-- What holds of every entry of a map, and membership in lists of numbers under their changes.
use mathlib.Core.List.{Perm, foldr}
use mathlib.Core.List.Perm
use mathlib.Core.Bool.{true, false, ◌||◌, Bool-set}
use mathlib.Core.Path.{◌≡◌, refl, ap, sym, subst, ◌∙◌}
use mathlib.Core.Logic.{inl, inr}
use mathlib.Core.List.{List, [], ◌∷◌, ◌++◌}
use mathlib.Core.Option.{Option, none, some, some_inj}
use native.Mathlib.Nat.{ℕ_set}
use Prim.Native.Nat.{ℕ, suc}
use native.Mathlib.Omega.{arith}
use des_cartes.Prelude.Tests.{◌==◌, if◌then◌else◌, if_ind, Bool-cases, OnSome, ==_iff}
use des_cartes.Prelude.Lists.{
  All, length, lookup, remove_key, insert_key, lookup-remove_key, lookup-insert_key, contains,
}

pub contains-snoc :
    (k id : ℕ) (order : List ℕ) → contains k order ≡ true → contains k (order ++ id ∷ []) ≡ true
contains-snoc k id [] h = cc
contains-snoc k id (x ∷ order) h = grind (arith, contains-snoc k id order)

pub contains-last : (id : ℕ) (order : List ℕ) → contains id (order ++ id ∷ []) ≡ true
contains-last id [] = grind arith
contains-last id (x ∷ order) = grind (arith, contains-last id order)

contains-foldr : (k : ℕ) (xs : List ℕ) → contains k xs ≡ foldr (λ x b. (x == k) || b) false xs
contains-foldr k [] = refl
contains-foldr k (x ∷ xs) = rw (contains-foldr k xs) refl

pub contains-Perm : {xs ys : List ℕ} (k : ℕ) → Perm xs ys → contains k xs ≡ contains k ys
contains-Perm {xs} {ys} k p =
    contains-foldr k xs
    ∙ Perm.foldr-eq Bool-set (λ x b. (x == k) || b) (λ a b c. grind arith) p false
    ∙ sym (contains-foldr k ys)

-- How often a number stands in a list.
abbrev pub count : ℕ → List ℕ → ℕ
count k [] = 0
count k (x ∷ xs) = let rest = count k xs in if x == k then suc rest else rest

count-foldr : (k : ℕ) (xs : List ℕ) → count k xs ≡ foldr (λ x n. if x == k then suc n else n) 0 xs
count-foldr k [] = refl
count-foldr k (x ∷ xs) = rw (count-foldr k xs) refl

pub count-Perm : {xs ys : List ℕ} (k : ℕ) → Perm xs ys → count k xs ≡ count k ys
count-Perm {xs} {ys} k p =
    count-foldr k xs
    ∙ Perm.foldr-eq ℕ_set (λ x n. if x == k then suc n else n) (λ a b c. ground arith) p 0
    ∙ sym (count-foldr k ys)

length-foldr {ℓ} : {A : Type ℓ} (xs : List A) → length xs ≡ foldr (λ x n. suc n) 0 xs
length-foldr [] = refl
length-foldr (x ∷ xs) = ap suc (length-foldr xs)

pub length-Perm {ℓ} : {A : Type ℓ} {xs ys : List A} → Perm xs ys → length xs ≡ length ys
length-Perm p =
    length-foldr _ ∙ Perm.foldr-eq ℕ_set (λ x n. suc n) (λ a b c. refl) p 0 ∙ sym (length-foldr _)

module _ {ℓ} {W : Type ℓ} where
  pub remove_key-All {κ μ} :
      {P : ℕ × W → Type κ} {Q : ℕ × W → Type μ} (k : ℕ) (m : List (ℕ × W))
      → ((e : ℕ × W) → P e → (e.0 == k) ≡ false → Q e)
      → All P m
      → All Q (remove_key k m)
  remove_key-All k [] f h = tt
  remove_key-All {Q = Q} k ((j, w) ∷ m) f h =
      let rest = remove_key-All {Q = Q} k m f h.1 in
      if_ind (All Q) (j == k) (λ _. rest) (λ n. (f (j, w) h.0 n, rest))

  pub lookup-none-All {κ μ} :
      {P : ℕ × W → Type κ} {Q : ℕ × W → Type μ} (k : ℕ) (m : List (ℕ × W))
      → ((e : ℕ × W) → P e → (e.0 == k) ≡ false → Q e)
      → lookup k m ≡ none
      → All P m
      → All Q m
  lookup-none-All k [] f n h = tt
  lookup-none-All k ((j, w) ∷ m) f n h = elim (Bool-cases (j == k)) [
    | inl e ↦ absurd (grind (arith, n, e))
    | inr e ↦ (f (j, w) h.0 e, lookup-none-All k m f (grind (arith, n, e)) h.1)
  ]

-- What holds of every value of a map holds of the one that is looked up.
pub lookup-All {ℓ κ} :
    {V : Type ℓ} (P : V → Type κ) (k : ℕ) (v : V) (m : List (ℕ × V))
    → All (λ (e : ℕ × V). P e.1) m
    → lookup k m ≡ some v
    → P v
lookup-All P k v [] h e = absurd (ground (arith, e))
lookup-All P k v ((j, w) ∷ m) h e = elim (Bool-cases (j == k)) [
  | inl eq ↦ subst P (some_inj.0 (grind (arith, e, eq))) h.0
  | inr ne ↦ lookup-All P k v m h.1 (grind (arith, e, ne))
]

-- To prove a statement of every entry of a map, prove it of one key and of the others.
module _ {ℓ κ} {V : Type ℓ} (P : ℕ → V → Type κ) (k : ℕ) (m : List (ℕ × V))
    (others : (j : ℕ) → (k == j) ≡ false → OnSome (P j) (lookup j m)) where
  pub lookup-OnSome : OnSome (P k) (lookup k m) → (j : ℕ) → OnSome (P j) (lookup j m)
  lookup-OnSome h j = elim (Bool-cases (k == j)) [
    | inl e ↦ let same : k ≡ j = (==_iff k j).0 e in subst (λ i. OnSome (P i) (lookup i m)) same h
    | inr e ↦ others j e
  ]

  pub remove_key-OnSome : (j : ℕ) → OnSome (P j) (lookup j (remove_key k m))
  remove_key-OnSome j = elim (Bool-cases (k == j)) [
    | inl e ↦ rw (lookup-remove_key k j m, e) tt
    | inr e ↦ rw (lookup-remove_key k j m, e) (others j e)
  ]

  pub insert_key-OnSome : (v : V) → P k v → (j : ℕ) → OnSome (P j) (lookup j (insert_key k v m))
  insert_key-OnSome v h j = elim (Bool-cases (k == j)) [
    | inl e ↦
        let same : k ≡ j = (==_iff k j).0 e in
        rw (lookup-insert_key k j v m, e) (subst (λ i. P i v) same h)
    | inr e ↦ rw (lookup-insert_key k j v m, e) (others j e)
  ]

pub OnSome-mono {ℓ κ μ} :
    {A : Type ℓ} {P : A → Type κ} {Q : A → Type μ} (o : Option A)
    → ((a : A) → P a → Q a)
    → OnSome P o
    → OnSome Q o
OnSome-mono none f h = tt
OnSome-mono (some a) f h = f a h
