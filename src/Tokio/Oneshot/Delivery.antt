-- ===== src/Tokio/Oneshot/Delivery.antt =====
-- What goes through a oneshot channel (des-tokio/src/sync/oneshot.rs).
use des_cartes.Prelude.{
  ◌≡◌, refl, sym, ap, ◌∙◌, append-nil, Bool, true, false, ◌&&◌, Option, none, some, List, [], ◌∷◌,
  ◌++◌, Bool-cases, is_empty, inl, inr, arith,
}
use des_cartes.Tokio.Oneshot.{
  State, Received, pending, recv_error, received, to_list, new, drop_sender, send, answer, poll,
  drop_receiver,
}

-- A channel with the values that were accepted and delivered, and whether the receiver's task sleeps.
pub record History (V W : Type 0) : Type 0 where
  pub state : State V W
  pub accepted : List V
  pub delivered : List V
  pub sleeping : Bool

abbrev pub kept {ℓ} : {V : Type ℓ} → V → Option V → List V
kept value none = value ∷ []
kept value (some back) = []

abbrev pub gained : {V : Type 0} → Received V → List V
gained pending = []
gained recv_error = []
gained (received value) = value ∷ []

abbrev pub is_pending : {V : Type 0} → Received V → Bool
is_pending pending = true
is_pending recv_error = false
is_pending (received value) = false

nil-append {ℓ} : {A : Type ℓ} (xs ys : List A) → [] ≡ xs ++ ys → xs ≡ []
nil-append [] ys e = refl
nil-append (x ∷ xs) ys e = absurd (ground (arith, e))

-- Who sleeps with a waker that is kept is woken with it.
silent {ℓ} :
    {A : Type ℓ} (sleeping : Bool) (ws more : List A)
    → (sleeping ≡ true → is_empty ws ≡ false)
    → ¬ ((sleeping && is_empty (ws ++ more)) ≡ true)
silent true [] more h s = absurd (ground (arith, h refl))
silent true (w ∷ ws) more h s = ground (arith, s)
silent false ws more h s = ground (arith, s)

module _ {V W : Type 0} where
  abbrev pub after_send : V → History V W → History V W
  after_send value h =
      let (back, woken, state) = send value h.state in
      record h {
        state = state;
        accepted = h.accepted ++ kept value back;
        sleeping = h.sleeping && is_empty woken;
      }

  abbrev pub after_drop : History V W → History V W
  after_drop h =
      let (woken, state) = drop_sender h.state in
      record h { state = state; sleeping = h.sleeping && is_empty woken }

  abbrev pub after_poll : W → History V W → History V W
  after_poll waker h =
      let (answer, state) = poll waker h.state in
      record h {
        state = state;
        delivered = h.delivered ++ gained answer;
        sleeping = is_pending answer;
      }

  abbrev pub after_close : History V W → History V W
  after_close h = record h { state = drop_receiver h.state; sleeping = false }

  pub data Step : History V W → History V W → Type 0 where
    sends :
        (value : V) (h : History V W) → h.state.sender_alive ≡ true → Step h (after_send value h)
    drops_sender : (h : History V W) → h.state.sender_alive ≡ true → Step h (after_drop h)
    polls :
        (waker : W) (h : History V W) → h.state.receiver_alive ≡ true → Step h (after_poll waker h)
    drops_receiver : (h : History V W) → h.state.receiver_alive ≡ true → Step h (after_close h)

  pub data Reach : History V W → Type 0 where
    start : Reach (record { state = new; accepted = []; delivered = []; sleeping = false })
    next : {h h' : History V W} → Reach h → Step h h' → Reach h'

  -- A receiver's task sleeps only where its waker is kept and the sender is still there.
  abbrev pub Awaited : Bool → Option V → Option W → Bool → Type 0
  Awaited sleeping value waker sender =
      sleeping ≡ true → (to_list value ≡ []) × (is_empty (to_list waker) ≡ false) × (sender ≡ true)

  pub record IsDelivered (h : History V W) : Type 0 where
    pub passed : h.accepted ≡ h.delivered ++ to_list h.state.value
    pub once : h.state.sender_alive ≡ true → h.accepted ≡ []
    pub awaited : Awaited h.sleeping h.state.value h.state.waker h.state.sender_alive

  awake :
      (h : History V W)
      → IsDelivered h
      → ¬ ((h.sleeping && is_empty (to_list h.state.waker)) ≡ true)
  awake h k s =
      silent h.sleeping (to_list h.state.waker) [] (λ q. (k.awaited q).1)
        (rw (append-nil (to_list h.state.waker)) s)

  send-IsDelivered :
      (value : V) (h : History V W)
      → h.state.sender_alive ≡ true
      → IsDelivered h
      → IsDelivered (after_send value h)
  send-IsDelivered value h alive k = elim (Bool-cases h.state.receiver_alive) [
    | inl e ↦ rw e (record {
      passed = rw (k.once alive, none_yet) refl;
      once = λ f. absurd (ground (arith, f));
      awaited = λ s. absurd (silent h.sleeping (to_list h.state.waker) [] (λ q. (k.awaited q).1) s);
    })
    | inr e ↦ rw e (record {
      passed = rw (append-nil h.accepted) k.passed;
      once = λ f. absurd (ground (arith, f));
      awaited = λ s. absurd (awake h k s);
    })
  ]
    where
      none_yet : h.delivered ≡ []
      none_yet = nil-append h.delivered (to_list h.state.value) (sym (k.once alive) ∙ k.passed)

  drop-IsDelivered :
      (h : History V W) → h.state.sender_alive ≡ true → IsDelivered h → IsDelivered (after_drop h)
  drop-IsDelivered h alive k = record {
    passed = k.passed;
    once = λ f. absurd (ground (arith, f));
    awaited = λ s. absurd (awake h k s);
  }

  poll-IsDelivered :
      (waker : W) (h : History V W) → IsDelivered h → IsDelivered (after_poll waker h)
  poll-IsDelivered waker h k = go h.state.value refl
    where
      go :
          (o : Option V)
          → h.state.value ≡ o
          → let r = answer waker o h.state in
            IsDelivered (record h {
              state = r.1;
              delivered = h.delivered ++ gained r.0;
              sleeping = is_pending r.0;
            })
      go (some v) e = record {
        passed =
            k.passed
            ∙ ap (λ o. h.delivered ++ to_list o) e
            ∙ sym (append-nil (h.delivered ++ v ∷ []));
        once = k.once;
        awaited = λ s. absurd (ground (arith, s));
      }
      go none e = elim (Bool-cases h.state.sender_alive) [
        | inl f ↦ rw f (record {
          passed = rw (append-nil h.delivered) k.passed;
          once = λ g. k.once f;
          awaited = λ s. (ap to_list e, refl, refl);
        })
        | inr f ↦ rw f (record {
          passed = rw (append-nil h.delivered) k.passed;
          once = λ g. absurd (ground (arith, g, f));
          awaited = λ s. absurd (ground (arith, s));
        })
      ]

  close-IsDelivered : (h : History V W) → IsDelivered h → IsDelivered (after_close h)
  close-IsDelivered h k = record {
    passed = k.passed;
    once = k.once;
    awaited = λ s. absurd (ground (arith, s));
  }

  -- In every state that sending or dropping the sender once, polling the receiver while it is
  -- alive, and dropping it, in any order, reach from a new channel, the values that were accepted
  -- are those delivered and then the one that is kept, none was accepted while the sender is there,
  -- and the receiver sleeps only while the sender is there, no value is kept and its waker is.
  pub Reach-IsDelivered : (h : History V W) → Reach h → IsDelivered h
  Reach-IsDelivered h Reach.start = record {
    passed = refl;
    once = λ f. refl;
    awaited = λ s. absurd (ground (arith, s));
  }
  Reach-IsDelivered _ (Reach.next r (Step.sends value h alive)) =
      send-IsDelivered value h alive (Reach-IsDelivered h r)
  Reach-IsDelivered _ (Reach.next r (Step.drops_sender h alive)) =
      drop-IsDelivered h alive (Reach-IsDelivered h r)
  Reach-IsDelivered _ (Reach.next r (Step.polls waker h alive)) =
      poll-IsDelivered waker h (Reach-IsDelivered h r)
  Reach-IsDelivered _ (Reach.next r (Step.drops_receiver h alive)) =
      close-IsDelivered h (Reach-IsDelivered h r)
