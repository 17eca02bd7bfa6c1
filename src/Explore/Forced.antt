-- ===== src/Explore/Forced.antt =====
-- Forcing a scripted decision: `ExplorationFrontierPolicy` of des-explore/src/frontier.rs.
use mathlib.Core.List.{Perm}
use mathlib.Core.List.Perm
use des_cartes.Prelude.{
  ℕ, zero, suc, ◌<◌, ◌≡◌, refl, sym, subst, true, some, List, [], ◌∷◌, length, length-map,
  get_elem?, position, contains, arith,
}
use des_cartes.Core.Time.{SimTime}
use des_cartes.Core.Scheduler.{simtime_to_nanos, FrontierEvent, Policy, seqs}
use des_cartes.Explore.Script.{
  DecisionScript, DecisionKey, frontier, new_key, normalize, normal_set, normal_set-Perm,
  get_decision, insert_decision, get_decision-insert_decision,
}
use des_cartes.Explore.Frontier.{TraceEvent, explore_choice, scripted_choice, clamp}
use des_cartes.Explore.Replay.{chosen_seq_at, position-contains}

get_elem?-bound : (xs : List ℕ) (i k : ℕ) → get_elem? xs i ≡ some k → i < length xs
get_elem?-bound [] i k e = cc
get_elem?-bound (x ∷ xs) zero k e = omega arith
get_elem?-bound (x ∷ xs) (suc i) k e = omega (arith, get_elem?-bound xs i k e)

module _ {κ} {P : Type κ} (inner : Policy P) where
  scripted_choice-found :
      (script : DecisionScript) (key : DecisionKey) (p : P) (t : SimTime)
      (events : List FrontierEvent) (k i : ℕ)
      → get_decision key script ≡ some k
      → position k (seqs events) ≡ some i
      → scripted_choice inner (some script) key p t events ≡ (i, p)
  unfolding scripted_choice
  scripted_choice-found script key p t events k i found at =
      rw (found, scripted_choice) (rw (at, scripted_choice) refl)

  -- If the script's newest entry is for this kind, time and ordinal and for a reordering of the
  -- frontier's numbers, and its choice is in the frontier, then the event with that number is
  -- chosen, whatever the inner policy would choose.
  pub explore_choice-forced {ℓ} :
      {X : Type ℓ} (script : DecisionScript) (p : P) (ordinal chosen : ℕ)
      (trace : List (TraceEvent X)) (t : SimTime) (events : List FrontierEvent) (ys : List ℕ)
      → Perm ys (seqs events)
      → contains chosen (seqs events) ≡ true
      → chosen_seq_at events
          (explore_choice inner
            (some
              (insert_decision (new_key frontier (simtime_to_nanos t) ordinal ys) chosen script))
            p
            ordinal
            trace
            t
            events).0
        ≡ some chosen
  unfolding explore_choice normalize
  explore_choice-forced script p ordinal chosen trace t events ys same there =
      let (i, at, named) = position-contains chosen (seqs events) there in
      let script' =
        insert_decision (new_key frontier (simtime_to_nanos t) ordinal ys) chosen script in
      let key = new_key frontier (simtime_to_nanos t) ordinal (seqs events) in
      let alike = subst (λ zs. Perm (normal_set ys) zs) (normal_set-Perm same) Perm.rfl in
      let found =
        scripted_choice-found script' key p t events chosen i
          (get_decision-insert_decision frontier (simtime_to_nanos t) ordinal chosen (normal_set ys)
            (normal_set (seqs events)) script alike)
          at in
      let small = get_elem?-bound (seqs events) i chosen named in
      subst (λ r. get_elem? (seqs events) (clamp events r.0) ≡ some chosen) (sym found)
        (subst (λ j. get_elem? (seqs events) j ≡ some chosen)
          (omega (arith, small, length-map (λ (e : FrontierEvent). e.seq) events)) named)
