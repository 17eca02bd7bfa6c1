-- ===== src/Core/Runtime/Pending.antt =====
-- The tasks of des-core/src/async_runtime.rs before and after one of them was polled, and which are queued.
use mathlib.Core.List.{Perm}
use des_cartes.Prelude.{
  ℕ, ◌≡◌, refl, sym, ap, ◌∙◌, subst, ◌⊎◌, inl, inr, true, false, none, List, ◌∷◌, ◌==◌, lookup,
  insert_key, remove_key, lookup-remove_key, lookup-insert_key, remove_key-All, lookup-none-All,
  contains, contains-Perm, All, arith,
}
use des_cartes.Core.Runtime.{Task}

module _ {ℓ} {F : Type ℓ} where
  -- The tasks after the task `id` was polled: it is gone, or it is no longer queued.
  abbrev pub Settled : ℕ → List (ℕ × Task F) → List (ℕ × Task F) → Type ℓ
  Settled id before after =
      (after ≡ remove_key id before)
      ⊎ ((t : Task F) × (t.queued ≡ false) × (after ≡ insert_key id t before))

  pub lookup-Settled :
      (id j : ℕ) (before after : List (ℕ × Task F))
      → Settled id before after
      → (id == j) ≡ false
      → lookup j after ≡ lookup j before
  lookup-Settled id j before after (inl e) n =
      ap (lookup j) e ∙ lookup-remove_key id j before ∙ rw n refl
  lookup-Settled id j before after (inr (t, q, e)) n =
      ap (lookup j) e ∙ lookup-insert_key id j t before ∙ rw n refl

  -- The task is not queued, or it stands in the list.
  abbrev pub Pending : List ℕ → ℕ × Task F → Type 0
  Pending set e = (e.1.queued ≡ false) ⊎ (contains e.0 set ≡ true)

  pub Pending-rest :
      (id : ℕ) (set rest : List ℕ)
      → Perm set (id ∷ rest)
      → (e : ℕ × Task F) → Pending set e
      → (e.0 == id) ≡ false
      → Pending rest e
  Pending-rest id set rest p e (inl h) n = inl h
  Pending-rest id set rest p e (inr h) n =
      let there : contains e.0 (id ∷ rest) ≡ true = sym (contains-Perm e.0 p) ∙ h in
      inr (grind (arith, there, n))

  pub Pending-tail :
      (id : ℕ) (set rest : List ℕ)
      → Perm set (id ∷ rest)
      → (e : ℕ × Task F) → Pending set e
      → Pending (id ∷ rest) e
  Pending-tail id set rest p e (inl h) = inl h
  Pending-tail id set rest p e (inr h) = inr (sym (contains-Perm e.0 p) ∙ h)

  pub Pending-Settled :
      (id : ℕ) (set rest : List ℕ) (before after : List (ℕ × Task F))
      → Perm set (id ∷ rest)
      → Settled id before after
      → All (Pending set) before
      → All (Pending rest) after
  Pending-Settled id set rest before after p (inl e) h =
      subst (All (Pending rest)) (sym e) (remove_key-All id before (Pending-rest id set rest p) h)
  Pending-Settled id set rest before after p (inr (t, q, e)) h =
      subst (All (Pending rest)) (sym e)
        (inl q, remove_key-All id before (Pending-rest id set rest p) h)

  pub lookup-none-Pending :
      (id : ℕ) (set rest : List ℕ) (m : List (ℕ × Task F))
      → Perm set (id ∷ rest)
      → lookup id m ≡ none
      → All (Pending set) m
      → All (Pending rest) m
  lookup-none-Pending id set rest m p n h = lookup-none-All id m (Pending-rest id set rest p) n h
