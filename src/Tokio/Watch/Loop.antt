-- ===== src/Tokio/Watch/Loop.antt =====
-- The loop of `wake_all`, over the receivers in the order of their creation
-- (des-tokio/src/sync/watch.rs).
use mathlib.Core.List.{Perm}
use mathlib.Core.List.Perm
use des_cartes.Prelude.{
  ℕ, ◌≡◌, refl, Bool, true, false, Option, none, some, List, [], ◌∷◌, ◌==◌, lookup, remove_key,
  contains, remove_key-All, All, All-mono, Bool-cases, inl, inr, arith, ==_iff, ap, subst,
  Option-cases,
}
use des_cartes.Tokio.Watch.Wakers.{
  Apart, wakers_of, remove_key-Apart, remove_key-none, remove_key-Perm,
}
use des_cartes.Tokio.Watch.{is_true, wake_id, wake_ids}

-- The receiver of a waker is alive, and in the row that is woken.
abbrev pub Listed : {W : Type 0} → List (ℕ × Bool) → List ℕ → ℕ × W → Type 0
Listed alive order e = (is_true (lookup e.0 alive) ≡ true) × (contains e.0 order ≡ true)

others :
    (alive : List (ℕ × Bool)) (id j : ℕ)
    → is_true (lookup j alive) ≡ true
    → is_true (lookup id alive) ≡ false
    → (j == id) ≡ false
others alive id j h k = elim (Bool-cases (j == id)) [
  | inr e ↦ e
  | inl e ↦
      let same : j ≡ id = (==_iff j id).0 e in
      absurd (grind (arith, h, k, ap (λ i. is_true (lookup i alive)) same))
]

module _ {W : Type 0} where
  later :
      (alive : List (ℕ × Bool)) (id : ℕ) (ids : List ℕ) (e : ℕ × W)
      → Listed alive (id ∷ ids) e
      → (e.0 == id) ≡ false
      → Listed alive ids e
  later alive id ids e h ne = (h.0, grind (arith, h.1, ne))

  wake_id-rest : (o : Option W) (r : List W × List (ℕ × W)) → (wake_id o r).1 ≡ r.1
  wake_id-rest none r = refl
  wake_id-rest (some w) r = refl

  -- The loop leaves no waker of a receiver that is alive and in the row.
  pub wake_ids-rest :
      (ids : List ℕ) (alive : List (ℕ × Bool)) (wakers : List (ℕ × W))
      → All (Listed alive ids) wakers
      → (wake_ids ids alive wakers).1 ≡ []
  wake_ids-rest [] alive [] h = refl
  wake_ids-rest [] alive (e ∷ wakers) h = absurd (ground (arith, h.0.1))
  wake_ids-rest (id ∷ ids) alive wakers h = elim (Bool-cases (is_true (lookup id alive))) [
    | inl e ↦
        rw (e, wake_id-rest)
          (wake_ids-rest ids alive (remove_key id wakers) (
            remove_key-All {Q = Listed alive ids} id wakers (λ w k ne. later alive id ids w k ne)
              h))
    | inr e ↦ rw e (
        wake_ids-rest ids alive wakers
          (All-mono wakers (λ w k. later alive id ids w k (others alive id w.0 k.0 e)) h))
  ]

  -- The loop wakes each waker of a receiver that is alive and in the row, once.
  pub wake_ids-woken :
      (ids : List ℕ) (alive : List (ℕ × Bool)) (wakers : List (ℕ × W))
      → Apart wakers
      → All (Listed alive ids) wakers
      → Perm (wakers_of wakers) (wake_ids ids alive wakers).0
  wake_ids-woken [] alive [] a h = Perm.rfl
  wake_ids-woken [] alive (e ∷ wakers) a h = absurd (ground (arith, h.0.1))
  wake_ids-woken (id ∷ ids) alive wakers a h = elim (Bool-cases (is_true (lookup id alive))) [
    | inl e ↦
        let rest = wake_ids-woken ids alive (remove_key id wakers) (remove_key-Apart id wakers a) (
          remove_key-All {Q = Listed alive ids} id wakers (λ w k ne. later alive id ids w k ne)
            h) in
        elim (Option-cases (lookup id wakers)) [
          | inl n ↦
              rw (e, n)
                (subst (λ m. Perm (wakers_of m) (wake_ids ids alive (remove_key id wakers)).0)
                  (remove_key-none id wakers n) rest)
          | inr (w, n) ↦ rw (e, n) (Perm.trans (remove_key-Perm id w wakers a n) (Perm.cons w rest))
        ]
    | inr e ↦ rw e (
        wake_ids-woken ids alive wakers a
          (All-mono wakers (λ w k. later alive id ids w k (others alive id w.0 k.0 e)) h))
  ]
