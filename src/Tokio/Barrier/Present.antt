-- ===== src/Tokio/Barrier/Present.antt =====
-- Which futures of a barrier wait in a generation: des-tokio/src/sync/barrier.rs.
use mathlib.Core.List.{Perm, perm_middle}
use mathlib.Core.List.Perm
use des_cartes.Prelude.{
  ℕ, ◌<◌, ◌≡◌, refl, sym, ap, ◌∙◌, ◌⊎◌, inl, inr, true, false, ◌&&◌, none, some, List, [], ◌∷◌,
  ◌++◌, ◌==◌, ==_iff, if◌then◌else◌, if_ind, Bool-cases, append_assoc, All, arith,
}
use des_cartes.Tokio.Barrier.{Wait, WaitPoll, ready, pending, task_of}

-- The task that a future waits for in a generation, if it does.
abbrev pub waits_for : ℕ → Wait → List ℕ
waits_for g f =
    if f.registered && (f.generation == g)
    then elim f.task_id [ none ↦ [] | some id ↦ id ∷ [] ]
    else []

abbrev pub present : ℕ → List Wait → List ℕ
present g [] = []
present g (f ∷ fs) = waits_for g f ++ present g fs

abbrev pub leads : WaitPoll → ℕ
leads (ready true) = 1
leads (ready false) = 0
leads pending = 0

-- A registered future knows its task.
abbrev pub Proper : Wait → Type 0
Proper f = (f.registered ≡ false) ⊎ ((id : ℕ) × (f.task_id ≡ some id))

present-append : (g : ℕ) (xs ys : List Wait) → present g (xs ++ ys) ≡ present g xs ++ present g ys
present-append g [] ys = refl
present-append g (x ∷ xs) ys =
    ap (λ r. waits_for g x ++ r) (present-append g xs ys)
    ∙ sym (append_assoc (waits_for g x) (present g xs) (present g ys))

prefix-Perm : (xs : List ℕ) {ys zs : List ℕ} → Perm ys zs → Perm (xs ++ ys) (xs ++ zs)
prefix-Perm [] p = p
prefix-Perm (x ∷ xs) p = Perm.cons x (prefix-Perm xs p)

exchange-Perm : (xs ys zs : List ℕ) → Perm (xs ++ (ys ++ zs)) (ys ++ (xs ++ zs))
exchange-Perm [] ys zs = Perm.rfl
exchange-Perm (x ∷ xs) ys zs =
    Perm.trans (Perm.cons x (exchange-Perm xs ys zs)) (Perm.symm (perm_middle ys (xs ++ zs)))

-- The place of a future among the others does not matter.
pub present-focus :
    (g : ℕ) (before : List Wait) (f : Wait) (after : List Wait)
    → Perm (present g (before ++ f ∷ after)) (present g (f ∷ (before ++ after)))
present-focus g [] f after = Perm.rfl
present-focus g (b ∷ before) f after =
    Perm.trans (prefix-Perm (waits_for g b) (present-focus g before f after))
      (exchange-Perm (waits_for g b) (waits_for g f) (present g (before ++ after)))

module _ {κ} (P : Wait → Type κ) where
  pub All-focus :
      (before : List Wait) (f : Wait) (after : List Wait)
      → All P (before ++ f ∷ after)
      → All P (f ∷ (before ++ after))
  All-focus [] f after h = h
  All-focus (b ∷ before) f after h =
      let rest = All-focus before f after h.1 in (rest.0, (h.0, rest.1))

  pub All-unfocus :
      (before : List Wait) (f : Wait) (after : List Wait)
      → All P (f ∷ (before ++ after))
      → All P (before ++ f ∷ after)
  All-unfocus [] f after h = h
  All-unfocus (b ∷ before) f after h = (h.1.0, All-unfocus before f after (h.0, h.1.1))

pub waits_for-unregistered : (g : ℕ) (f : Wait) → f.registered ≡ false → waits_for g f ≡ []
waits_for-unregistered g f e = rw e refl

pub waits_for-other : (g : ℕ) (f : Wait) → (f.generation == g) ≡ false → waits_for g f ≡ []
waits_for-other g f e = elim (Bool-cases f.registered) [
  | inl r ↦ rw (r, e) refl
  | inr r ↦ rw r refl
]

pub waits_for-registered :
    (g : ℕ) (f : Wait) (id : ℕ)
    → f.registered ≡ true
    → f.generation ≡ g
    → f.task_id ≡ some id
    → waits_for g f ≡ id ∷ []
waits_for-registered g f id r e t = let same = (==_iff f.generation g).1 e in rw (r, same, t) refl

pub waits_for-started :
    (g : ℕ) (f : Wait) (task : ℕ)
    → f.registered ≡ true
    → Proper f
    → waits_for g (record f { task_id = some (task_of f.task_id task) }) ≡ waits_for g f
waits_for-started g f task r (inl n) = absurd (cc)
waits_for-started g f task r (inr (id, e)) = rw e refl

-- Nobody waits for a generation that is still to come.
pub present-none : (g : ℕ) (fs : List Wait) → All (λ f. f.generation < g) fs → present g fs ≡ []
present-none g [] h = refl
present-none g (f ∷ fs) h =
    let other : (f.generation == g) ≡ false = ground (arith, h.0) in
    rw other (
      if_ind (λ (r : List ℕ). r ++ present g fs ≡ []) (f.registered && false)
        (λ e. absurd (grind (arith, e))) (λ _. present-none g fs h.1))
