-- ===== src/Tokio/Mpsc/Wakers.antt =====
-- No waiting sender is lost: the order and the map of the waiters of des-tokio/src/sync/mpsc.rs.
use des_cartes.Prelude.{
  ℕ, ◌≡◌, ◌≢◌, refl, true, false, Option, none, some, List, [], ◌∷◌, ◌++◌, ◌==◌, lookup, insert_key,
  remove_key, remove_key-All, lookup-none-All, contains-snoc, contains-last, contains, All, arith,
}
use des_cartes.Tokio.Mpsc.{wake_one}

abbrev Woken {ℓ} : Type ℓ → Type ℓ
Woken W = List ℕ × List (ℕ × W) × List W

module _ {ℓ} {W : Type ℓ} where
  -- The sender stands in the order, where `wake_one_sender` finds it.
  abbrev pub Found : List ℕ → ℕ × W → Type 0
  Found order e = contains e.0 order ≡ true

  abbrev pub Tracked : List ℕ → List (ℕ × W) → Type 0
  Tracked order waiters = All (Found order) waiters

  Found-tail :
      (id : ℕ) (order : List ℕ) (e : ℕ × W)
      → Found (id ∷ order) e
      → (e.0 == id) ≡ false
      → Found order e
  Found-tail id order e h n = grind (arith, h, n)

  pub wake_one-Tracked :
      (order : List ℕ) (waiters : List (ℕ × W))
      → Tracked order waiters
      → Tracked (wake_one order waiters).0 (wake_one order waiters).1
  unfolding wake_one
  wake_one-Tracked [] waiters h = h
  wake_one-Tracked (id ∷ order) waiters h =
      go (wake_one-Tracked order waiters) (lookup id waiters) refl
    where
      go :
          (Tracked order waiters → Tracked (wake_one order waiters).0 (wake_one order waiters).1)
          → (o : Option W) → lookup id waiters ≡ o
          → Tracked
              (elim o as (λ _. Woken W) [
                | some w ↦ (order, remove_key id waiters, w ∷ [])
                | none ↦ wake_one order waiters
              ]).0
              (elim o as (λ _. Woken W) [
                | some w ↦ (order, remove_key id waiters, w ∷ [])
                | none ↦ wake_one order waiters
              ]).1
      go ih (some w) e = remove_key-All id waiters (Found-tail id order) h
      go ih none e = ih (lookup-none-All id waiters (Found-tail id order) e h)

  -- While a sender waits, one is woken.
  pub wake_one-ne_nil :
      (order : List ℕ) (waiters : List (ℕ × W))
      → Tracked order waiters
      → waiters ≢ []
      → (wake_one order waiters).2 ≢ []
  unfolding wake_one
  wake_one-ne_nil [] [] h n = absurd (n refl)
  wake_one-ne_nil [] (w ∷ ws) h n = cc
  wake_one-ne_nil (id ∷ order) waiters h n =
      go (wake_one-ne_nil order waiters) (lookup id waiters) refl
    where
      go :
          (Tracked order waiters → waiters ≢ [] → (wake_one order waiters).2 ≢ [])
          → (o : Option W) → lookup id waiters ≡ o
          → (elim o as (λ _. Woken W) [
            | some w ↦ (order, remove_key id waiters, w ∷ [])
            | none ↦ wake_one order waiters
          ]).2
            ≢ []
      go ih (some w) e k = cc
      go ih none e k = ih (lookup-none-All id waiters (Found-tail id order) e h) n k

  -- A sender that registers, for the first time or again, stands in the order.
  pub register-Tracked :
      (id : ℕ) (w : W) (order : List ℕ) (waiters : List (ℕ × W))
      → Tracked order waiters
      → Tracked (order ++ id ∷ []) (insert_key id w waiters)
  register-Tracked id w order waiters h =
      (contains-last id order, remove_key-All id waiters (λ e f _. contains-snoc e.0 id order f) h)
