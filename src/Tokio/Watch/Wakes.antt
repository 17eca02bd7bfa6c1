-- ===== src/Tokio/Watch/Wakes.antt =====
-- Whom a change of a watch channel wakes (des-tokio/src/sync/watch.rs).
use mathlib.Core.List.{Perm}
use des_cartes.Prelude.{
  ℕ, ◌≡◌, refl, Bool, true, false, Option, some, List, [], ◌∷◌, ◌++◌, ◌==◌, if◌then◌else◌, if_ind,
  lookup, insert_key, remove_key, lookup-insert_key, lookup-remove_key, remove, contains,
  contains-snoc, contains-last, remove_key-All, All, All-mono, Bool-cases, inl, inr, arith, ==_iff,
  subst, saturating_add, ◌⊎◌,
}
use des_cartes.Tokio.Watch.Wakers.{Apart, wakers_of, remove_key-Apart, insert_key-Apart}
use des_cartes.Tokio.Watch.Loop.{Listed, wake_ids-rest, wake_ids-woken}
use des_cartes.Tokio.Watch.{
  State, Receiver, Change, is_true, wake_all, remove_receiver, subscribe, new, channel, publish,
  send, send_replace, send_if_modified, drop_sender, poll_changed,
}

kept : (b : Bool) (o : Option Bool) → is_true o ≡ true → is_true (if b then some true else o) ≡ true
kept true o h = refl
kept false o h = h

contains-remove-other :
    (id j : ℕ) (xs : List ℕ) → (id == j) ≡ false → contains j (remove id xs) ≡ contains j xs
contains-remove-other id j [] ne = refl
contains-remove-other id j (x ∷ xs) ne = ground (arith, contains-remove-other id j xs ne, ne)

-- Looking up in a map in which a key was added or removed.
inserted :
    (id j : ℕ) (alive : List (ℕ × Bool))
    → is_true (lookup j (insert_key id true alive)) ≡ true
    → (id == j) ≡ false
    → is_true (lookup j alive) ≡ true
inserted id j alive k ne =
    let k' = subst (λ o. is_true o ≡ true) (lookup-insert_key id j true alive) k in
    grind (arith, k', ne)

removed :
    (id j : ℕ) (alive : List (ℕ × Bool))
    → is_true (lookup j (remove_key id alive)) ≡ true
    → ((id == j) ≡ false) × (is_true (lookup j alive) ≡ true)
removed id j alive k =
    let k' = subst (λ o. is_true o ≡ true) (lookup-remove_key id j alive) k in
    elim (Bool-cases (id == j)) [
      | inl e ↦ absurd (grind (arith, k', e))
      | inr e ↦ (e, grind (arith, k', e))
    ]

module _ {W : Type 0} where
  -- What waits stays listed.
  pub data Step {V : Type 0} : State V W → State V W → Type 0 where
    sends : (value : V) (s : State V W) → Step s (send value s).2
    replaces : (value : V) (s : State V W) → Step s (send_replace value s).2
    modifies : (modify : V → Bool × V) (s : State V W) → Step s (send_if_modified modify s).2
    subscribes : (s : State V W) → Step s (subscribe s).1
    drops_sender : (s : State V W) → Step s (drop_sender s).1
    polls :
        (waker : W) (r : Receiver) (s : State V W)
        → is_true (lookup r.id s.receiver_alive) ≡ true
        → Step s (poll_changed waker r s).2
    drops_receiver : (id : ℕ) (s : State V W) → Step s (remove_receiver id s)

  pub data Reach {V : Type 0} : State V W → Type 0 where
    start : (value : V) → Reach (channel value).1
    next : {s s' : State V W} → Reach s → Step s s' → Reach s'

  -- The receivers that are alive are in the row, and those of wakers are alive and differ.
  pub record IsListed {V : Type 0} (s : State V W) : Type 0 where
    pub in_row :
        (id : ℕ) → is_true (lookup id s.receiver_alive) ≡ true → contains id s.receiver_order ≡ true
    pub apart : Apart s.receiver_wakers
    pub awake : All (λ (e : ℕ × W). is_true (lookup e.0 s.receiver_alive) ≡ true) s.receiver_wakers

  listed :
      {V : Type 0} (s : State V W)
      → IsListed s
      → All (Listed s.receiver_alive s.receiver_order) s.receiver_wakers
  listed s h = All-mono s.receiver_wakers (λ e k. (k, h.in_row e.0 k)) h.awake

  -- After all are woken, no waker is left.
  wake_all-IsListed : {V : Type 0} (s : State V W) → IsListed s → IsListed (wake_all s).1
  wake_all-IsListed s h = record {
    in_row = h.in_row;
    apart = rw (wake_ids-rest s.receiver_order s.receiver_alive s.receiver_wakers (listed s h)) tt;
    awake = rw (wake_ids-rest s.receiver_order s.receiver_alive s.receiver_wakers (listed s h)) tt;
  }

  subscribe-IsListed : {V : Type 0} (s : State V W) → IsListed s → IsListed (subscribe s).1
  subscribe-IsListed s h = record {
    in_row = λ id k. elim (Bool-cases (s.next_receiver_id == id)) [
      | inl e ↦
          let same : s.next_receiver_id ≡ id = (==_iff s.next_receiver_id id).0 e in
          subst (λ i. contains i (s.receiver_order ++ s.next_receiver_id ∷ []) ≡ true) same
            (contains-last s.next_receiver_id s.receiver_order)
      | inr e ↦
          contains-snoc id s.next_receiver_id s.receiver_order
            (h.in_row id (inserted s.next_receiver_id id s.receiver_alive k e))
    ];
    apart = h.apart;
    awake =
        All-mono s.receiver_wakers
          (λ e k.
            rw (lookup-insert_key s.next_receiver_id e.0 true s.receiver_alive)
              (kept (s.next_receiver_id == e.0) (lookup e.0 s.receiver_alive) k))
          h.awake;
  }

  poll-IsListed :
      {V : Type 0} (waker : W) (r : Receiver) (s : State V W)
      → is_true (lookup r.id s.receiver_alive) ≡ true
      → IsListed s
      → IsListed (poll_changed waker r s).2
  poll-IsListed {V} waker r s alive h =
      if_ind (λ (c : Change × Receiver × State V W). IsListed c.2) (s.version == r.seen_version)
        (λ _.
          if_ind (λ (c : Change × Receiver × State V W). IsListed c.2) s.sender_alive
            (λ _. record {
              in_row = h.in_row;
              apart = insert_key-Apart r.id waker s.receiver_wakers h.apart;
              awake = (alive, remove_key-All r.id s.receiver_wakers (λ e k ne. k) h.awake);
            })
            (λ _. h))
        (λ _. h)

  remove-IsListed :
      {V : Type 0} (id : ℕ) (s : State V W) → IsListed s → IsListed (remove_receiver id s)
  remove-IsListed id s h = record {
    in_row = λ j k.
        let r = removed id j s.receiver_alive k in
        rw (contains-remove-other id j s.receiver_order r.0) (h.in_row j r.1);
    apart = remove_key-Apart id s.receiver_wakers h.apart;
    awake =
        remove_key-All
          {Q = λ (e : ℕ × W). is_true (lookup e.0 (remove_key id s.receiver_alive)) ≡ true} id
          s.receiver_wakers
          (λ e k ne. rw (lookup-remove_key id e.0 s.receiver_alive) (grind (arith, k, ne))) h.awake;
  }

  publish-IsListed :
      {V : Type 0} (value : V) (s : State V W) → IsListed s → IsListed (publish value s).1
  publish-IsListed value s h =
      wake_all-IsListed _ (record { in_row = h.in_row; apart = h.apart; awake = h.awake })

  Step-IsListed : {V : Type 0} {s s' : State V W} → Step s s' → IsListed s → IsListed s'
  Step-IsListed {V} (Step.sends value s) h =
      if_ind (λ (r : Option V × List W × State V W). IsListed r.2) s.sender_alive
        (λ _. publish-IsListed value s h) (λ _. h)
  Step-IsListed (Step.replaces value s) h = publish-IsListed value s h
  Step-IsListed {V} (Step.modifies modify s) h =
      if_ind (λ (r : Bool × List W × State V W). IsListed r.2) (modify s.value).0
        (λ _. publish-IsListed (modify s.value).1 s h) (λ _. h)
  Step-IsListed (Step.subscribes s) h = subscribe-IsListed s h
  Step-IsListed {V} (Step.drops_sender s) h =
      if_ind (λ (r : List W × State V W). IsListed r.1) s.sender_alive
        (λ _. wake_all-IsListed _ (record { in_row = h.in_row; apart = h.apart; awake = h.awake }))
        (λ _. h)
  Step-IsListed (Step.polls waker r s alive) h = poll-IsListed waker r s alive h
  Step-IsListed (Step.drops_receiver id s) h = remove-IsListed id s h

  Reach-IsListed : {V : Type 0} (s : State V W) → Reach s → IsListed s
  Reach-IsListed s (Reach.start value) =
      subscribe-IsListed (new value)
        (record { in_row = λ id k. absurd (ground (arith, k)); apart = tt; awake = tt })
  Reach-IsListed _ (Reach.next {s} r step) = Step-IsListed step (Reach-IsListed s r)

  -- Each waker that waited is woken once, and none is left.
  abbrev pub WakesAll : {V : Type 0} → State V W → List W → State V W → Type 0
  WakesAll s woken s' = Perm (wakers_of s.receiver_wakers) woken × (s'.receiver_wakers ≡ [])

  IsListed-WakesAll :
      {V : Type 0} (s : State V W) → IsListed s → WakesAll s (wake_all s).0 (wake_all s).1
  IsListed-WakesAll s h = (
    wake_ids-woken s.receiver_order s.receiver_alive s.receiver_wakers h.apart (listed s h),
    wake_ids-rest s.receiver_order s.receiver_alive s.receiver_wakers (listed s h),
  )

  -- In every state that sending in its three ways, subscribing, dropping a sender, polling for a
  -- change with a receiver that is alive, and dropping receivers, in any order, reach from a new
  -- channel: replacing the value wakes each waker that waits exactly once, in some order, and
  -- leaves none behind; and so do sending and the drop of the sender, unless the sender was marked
  -- as gone before.
  pub Reach-wakes :
      {V : Type 0} (value : V) (s : State V W)
      → Reach s
      → WakesAll s (send_replace value s).1 (send_replace value s).2
        × ((s.sender_alive ≡ false)
            ⊎ (WakesAll s (send value s).1 (send value s).2
                × WakesAll s (drop_sender s).0 (drop_sender s).1))
  Reach-wakes {V} value s r =
      let h = Reach-IsListed s r in
      let published =
        IsListed-WakesAll (record s { value = value; version = saturating_add s.version 1 })
          (record { in_row = h.in_row; apart = h.apart; awake = h.awake }) in
      let closed =
        IsListed-WakesAll (record s { sender_alive = false })
          (record { in_row = h.in_row; apart = h.apart; awake = h.awake }) in
      (
        published,
        elim (Bool-cases s.sender_alive) [
          | inl e ↦ inr (rw e published, rw e closed)
          | inr e ↦ inl e
        ],
      )
