-- ===== src/Explore/Replay.antt =====
-- Replaying a recorded trace: des-explore/src/frontier.rs, the recording policy against the replaying one.
use mathlib.Core.List.{Perm}
use mathlib.Core.List.Perm
use des_cartes.Prelude.{
  contains-Perm, ℕ, zero, suc, ◌<◌, ◌≡◌, refl, sym, ap, ◌∙◌, subst, true, Option, none, some, List,
  [], ◌∷◌, ◌==◌, if_ind, length, length-map, get_elem?, position, contains, is_empty, arith,
  ==-refl, ==_iff, Bool-cases, inl, inr,
}
use des_cartes.Core.Time.{SimTime}
use des_cartes.Core.Scheduler.{simtime_to_nanos, FrontierEvent, seqs}
use des_cartes.Explore.Script.{normal_set, normal_set-Perm, same_list, same_list_refl}
use des_cartes.Explore.Frontier.{
  SchedulerDecision, ReplayFrontierState, decision, clamp, expected_seqs, replay_index, replay_seq,
  replay_decision, chosen_seq_not_found,
}

-- The number of the event that is chosen, if there is one.
abbrev pub chosen_seq_at : List FrontierEvent → ℕ → Option ℕ
chosen_seq_at events i = get_elem? (seqs events) i

get_elem?-seqs :
    (events : List FrontierEvent) (i : ℕ)
    → (elim (get_elem? events i) as (λ _. Option ℕ) [ none ↦ none | some e ↦ some e.seq ])
      ≡ get_elem? (seqs events) i
get_elem?-seqs [] i = refl
get_elem?-seqs (e ∷ es) zero = refl
get_elem?-seqs (e ∷ es) (suc i) = get_elem?-seqs es i

get_elem?-lt :
    (xs : List ℕ) (i : ℕ)
    → i < length xs
    → (k : ℕ) × (get_elem? xs i ≡ some k) × (contains k xs ≡ true)
get_elem?-lt [] i h = absurd (omega arith)
get_elem?-lt (x ∷ xs) zero h = (x, refl, rw (==-refl x) refl)
get_elem?-lt (x ∷ xs) (suc i) h =
    let (k, e, c) = get_elem?-lt xs i (omega arith) in (k, e, grind (arith, c))

pub position-contains :
    (k : ℕ) (xs : List ℕ)
    → contains k xs ≡ true
    → (i : ℕ) × (position k xs ≡ some i) × (get_elem? xs i ≡ some k)
position-contains k [] c = cc
position-contains k (x ∷ xs) c = elim (Bool-cases (x == k)) [
  | inl h ↦ (0, rw h refl, ap some ((==_iff x k).0 h))
  | inr h ↦
      let (i, e, g) = position-contains k xs (grind (arith, c, h)) in (suc i, rw (h, e) refl, g)
]

-- What a replay of the decision on another order of the same frontier must give: the event with the
-- recorded number, and no error.
abbrev pub Follows :
    List FrontierEvent
    → ℕ
    → List FrontierEvent
    → ReplayFrontierState
    → ℕ × ReplayFrontierState
    → Type 0
Follows recorded i events st r = (chosen_seq_at events r.0 ≡ chosen_seq_at recorded i) × (r.1 ≡ st)

module _ (index : ℕ) (t : SimTime) (st : ReplayFrontierState) where
  replay_seq-eq :
      (d : SchedulerDecision) (k i : ℕ) (events : List FrontierEvent)
      → d.chosen_seq ≡ some k
      → position k (seqs events) ≡ some i
      → replay_seq index d events st ≡ (i, st)
  unfolding replay_seq
  replay_seq-eq d k i events named e =
      subst
        (λ o.
          (elim o as (λ _. ℕ × ReplayFrontierState) [
            | none ↦ replay_index index d events st
            | some chosen ↦ elim (position chosen (seqs events)) as (λ _. ℕ × ReplayFrontierState) [
              | some idx ↦ (idx, st)
              | none ↦ (
                0,
                record st {
                  error = some (chosen_seq_not_found index d.time_nanos chosen (seqs events));
                },
              )
            ]
          ])
          ≡ (i, st))
        (sym named)
        (subst
          (λ o.
            (elim o as (λ _. ℕ × ReplayFrontierState) [
              | some idx ↦ (idx, st)
              | none ↦ (
                0,
                record st {
                  error = some (chosen_seq_not_found index d.time_nanos k (seqs events));
                },
              )
            ])
            ≡ (i, st))
          (sym e) refl)

  replay_seq-named :
      (d : SchedulerDecision) (k : ℕ) (events : List FrontierEvent)
      → d.chosen_seq ≡ some k
      → contains k (seqs events) ≡ true
      → (chosen_seq_at events (replay_seq index d events st).0 ≡ some k)
        × ((replay_seq index d events st).1 ≡ st)
  unfolding replay_seq
  replay_seq-named d k events named c =
      let (i, e, g) = position-contains k (seqs events) c in
      subst (λ r. (chosen_seq_at events r.0 ≡ some k) × (r.1 ≡ st))
        (sym (replay_seq-eq d k i events named e)) (g, refl)

  replay_decision-eq :
      (d : SchedulerDecision) (events : List FrontierEvent)
      → d.time_nanos ≡ simtime_to_nanos t
      → normal_set (expected_seqs d) ≡ normal_set (seqs events)
      → replay_decision index d t events st ≡ replay_seq index d events st
  unfolding replay_decision
  replay_decision-eq d events time same =
      if_ind (λ r. r ≡ replay_seq index d events st) (d.time_nanos == simtime_to_nanos t)
        (λ _.
          if_ind (λ r. r ≡ replay_seq index d events st) (is_empty (expected_seqs d)) (λ _. refl)
            (λ _.
              if_ind (λ r. r ≡ replay_seq index d events st)
                (same_list (normal_set (expected_seqs d)) (normal_set (seqs events))) (λ _. refl)
                (λ n.
                  let yes =
                    subst (λ ys. same_list (normal_set (expected_seqs d)) ys ≡ true) same
                      (same_list_refl (normal_set (expected_seqs d))) in
                  cc)))
        (λ n. absurd (grind (arith, time, n)))

  expected_seqs-decision :
      (events : List FrontierEvent) (i : ℕ) → expected_seqs (decision t events i) ≡ seqs events
  unfolding expected_seqs decision
  expected_seqs-decision [] i = refl
  expected_seqs-decision (e ∷ es) i = refl

  empty :
      (c : ℕ) (events : List FrontierEvent)
      → [] ≡ seqs events
      → Follows [] (clamp [] c) events st (replay_seq index (decision t [] (clamp [] c)) events st)
  unfolding replay_seq replay_index decision
  empty c [] e = (refl, refl)
  empty c (x ∷ xs) e = cc

  pub replay_decision-Follows :
      (recorded events : List FrontierEvent) (c : ℕ)
      → Perm (seqs recorded) (seqs events)
      → Follows recorded
          (clamp recorded c)
          events
          st
          (replay_decision index (decision t recorded (clamp recorded c)) t events st)
  unfolding decision
  replay_decision-Follows recorded events c p =
      let d = decision t recorded (clamp recorded c) in
      subst (Follows recorded (clamp recorded c) events st)
        (sym (
          replay_decision-eq d events refl (
            ap normal_set (expected_seqs-decision recorded (clamp recorded c))
            ∙ normal_set-Perm p)))
        (named recorded p)
    where
      named :
          (recorded : List FrontierEvent)
          → Perm (seqs recorded) (seqs events)
          → Follows recorded
              (clamp recorded c)
              events
              st
              (replay_seq index (decision t recorded (clamp recorded c)) events st)
      named [] p = empty c events (Perm.nil-eq p)
      named (e ∷ es) p =
          let i = clamp (e ∷ es) c in
          let (k, at, c) =
            get_elem?-lt (seqs (e ∷ es)) i
              (omega (arith, length-map (λ (e : FrontierEvent). e.seq) (e ∷ es))) in
          let there = sym (contains-Perm k p) ∙ c in
          let found =
            replay_seq-named (decision t (e ∷ es) i) k events (get_elem?-seqs (e ∷ es) i ∙ at)
              there in
          (found.0 ∙ sym at, found.1)
