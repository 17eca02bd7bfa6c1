-- ===== src/Tokio/Watch/Wakers.antt =====
-- The map of wakers of a watch channel, in which no id stands twice (des-tokio/src/sync/watch.rs).
use mathlib.Core.List.{Perm}
use mathlib.Core.List.Perm
use mathlib.Core.Option.{some_inj}
use des_cartes.Prelude.{
  ℕ, ◌≡◌, refl, ap, subst, ◌∙◌, none, some, List, [], ◌∷◌, ◌==◌, ==_iff, if_ind, lookup, remove_key,
  insert_key, lookup-remove_key, map, arith, Bool-cases, inl, inr,
}

module _ {W : Type 0} where
  -- No id stands twice.
  abbrev pub Apart : List (ℕ × W) → Type 0
  Apart [] = Unit
  Apart ((k, w) ∷ m) = (lookup k m ≡ none) × Apart m

  abbrev pub wakers_of : List (ℕ × W) → List W
  wakers_of = map (λ e. e.1)

  still_none : (id k : ℕ) (m : List (ℕ × W)) → lookup k m ≡ none → lookup k (remove_key id m) ≡ none
  still_none id k m n =
      lookup-remove_key id k m ∙ if_ind (λ o. o ≡ none) (id == k) (λ _. refl) (λ _. n)

  pub remove_key-Apart : (id : ℕ) (m : List (ℕ × W)) → Apart m → Apart (remove_key id m)
  remove_key-Apart id [] h = tt
  remove_key-Apart id ((k, w) ∷ m) h =
      let rest = remove_key-Apart id m h.1 in
      if_ind Apart (k == id) (λ _. rest) (λ _. (still_none id k m h.0, rest))

  pub insert_key-Apart : (id : ℕ) (w : W) (m : List (ℕ × W)) → Apart m → Apart (insert_key id w m)
  insert_key-Apart id w m h =
      (lookup-remove_key id id m ∙ rw ((==_iff id id).1 refl) refl, remove_key-Apart id m h)

  pub remove_key-none : (id : ℕ) (m : List (ℕ × W)) → lookup id m ≡ none → remove_key id m ≡ m
  remove_key-none id [] n = refl
  remove_key-none id ((k, w) ∷ m) n = elim (Bool-cases (k == id)) [
    | inl e ↦ absurd (grind (arith, n, e))
    | inr e ↦ rw e (ap (λ r. (k, w) ∷ r) (remove_key-none id m (grind (arith, n, e))))
  ]

  -- The removal of an id takes out its waker and no other.
  pub remove_key-Perm :
      (id : ℕ) (w : W) (m : List (ℕ × W))
      → Apart m
      → lookup id m ≡ some w
      → Perm (wakers_of m) (w ∷ wakers_of (remove_key id m))
  remove_key-Perm id w [] h e = absurd (ground (arith, e))
  remove_key-Perm id w ((k, v) ∷ m) h e = elim (Bool-cases (k == id)) [
    | inl eq ↦
        let same : v ≡ w = some_inj.0 (grind (arith, e, eq)) in
        let gone : lookup id m ≡ none = subst (λ i. lookup i m ≡ none) ((==_iff k id).0 eq) h.0 in
        rw (eq, remove_key-none id m gone, same) Perm.rfl
    | inr ne ↦ rw ne (
        Perm.trans (Perm.cons v (remove_key-Perm id w m h.1 (grind (arith, e, ne))))
          (Perm.swap w v (wakers_of (remove_key id m))))
  ]
