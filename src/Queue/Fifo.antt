-- ===== src/Queue/Fifo.antt =====
-- Every interleaving of the calls of dpi/thread_safe_queue.py by any threads: a list of calls in
-- the order in which they take the lock, with what was accepted and delivered on the way.
use python_deep_packet_inspe.Prelude.{
  ℕ, ◌≤◌, ◌≡◌, refl, sym, ap, subst, ◌∙◌, ◌+◌, Bool, true, false, Option, none, some, List, [], ◌∷◌,
  ◌++◌, append_assoc, length, length-append, arith,
}
use python_deep_packet_inspe.Queue.{
  Queue, Outcome, blocked, done, init, push, try_push, pop, pop_with_timeout, shutdown, take_front,
}

pub data Call {ℓ} (A : Type ℓ) : Type ℓ where
  push_call try_push_call : A → Call A
  pop_call pop_with_timeout_call shutdown_call : Call A

pub record Trace {ℓ} (A : Type ℓ) : Type ℓ where
  pub queue : Queue A
  pub accepted : List A
  pub delivered : List A

module _ {ℓ} {A : Type ℓ} where
  abbrev pub start : ℕ → Trace A
  start max_size = record { queue = init max_size; accepted = []; delivered = [] }

  note_push : A → Trace A → Queue A × Bool → Trace A
  note_push a t (q, true) = record {
    queue = q;
    accepted = t.accepted ++ a ∷ [];
    delivered = t.delivered;
  }
  note_push a t (q, false) = record t { queue = q }

  unfoldable pub note_pop : Trace A → Queue A × Option A → Trace A
  note_pop t (q, some a) = record {
    queue = q;
    accepted = t.accepted;
    delivered = t.delivered ++ a ∷ [];
  }
  note_pop t (q, none) = record t { queue = q }

  -- A blocked call has not happened yet.
  after : {B : Type ℓ} → Trace A → (B → Trace A) → Outcome B → Trace A
  after t f blocked = t
  after t f (done b) = f b

  unfoldable pub step : Trace A → Call A → Trace A
  unfolding note_push note_pop after push try_push pop pop_with_timeout shutdown
  step t (push_call a) = after t (note_push a t) (push a t.queue)
  step t (try_push_call a) = note_push a t (try_push a t.queue)
  step t pop_call = after t (note_pop t) (pop t.queue)
  step t pop_with_timeout_call = note_pop t (pop_with_timeout t.queue)
  step t shutdown_call = record t { queue = shutdown t.queue }

  unfoldable pub run : Trace A → List (Call A) → Trace A
  run t [] = t
  run t (c ∷ calls) = run (step t c) calls

  pub record IsFifo (t : Trace A) : Type ℓ where
    pub in_order : t.accepted ≡ t.delivered ++ t.queue.items
    pub bounded : length t.queue.items ≤ t.queue.max_size

  push_in_order : (a : A) (xs ys zs : List A) → xs ≡ ys ++ zs → xs ++ a ∷ [] ≡ ys ++ (zs ++ a ∷ [])
  push_in_order a xs ys zs h = ap (λ l. l ++ a ∷ []) h ∙ append_assoc ys zs (a ∷ [])

  push-IsFifo :
      (a : A) (t : Trace A)
      → IsFifo t
      → length t.queue.items + 1 ≤ t.queue.max_size
      → IsFifo (note_push a t (record t.queue { items = t.queue.items ++ a ∷ [] }, true))
  unfolding note_push
  push-IsFifo a t h room = record {
    in_order = push_in_order a t.accepted t.delivered t.queue.items h.in_order;
    bounded = omega (arith, length-append t.queue.items (a ∷ []));
  }

  pop-IsFifo :
      (t : Trace A) (xs : List A)
      → t.queue.items ≡ xs
      → IsFifo t
      → IsFifo (note_pop t (take_front xs t.queue))
  unfolding note_pop take_front
  pop-IsFifo t [] e h = h
  pop-IsFifo t (x ∷ xs) e h = record {
    in_order =
        h.in_order ∙ ap (λ l. t.delivered ++ l) e ∙ sym (append_assoc t.delivered (x ∷ []) xs);
    bounded = omega (arith, h.bounded, ap length e);
  }

  max_size-pop :
      (t : Trace A) (xs : List A)
      → (note_pop t (take_front xs t.queue)).queue.max_size ≡ t.queue.max_size
  unfolding note_pop take_front
  max_size-pop t [] = refl
  max_size-pop t (x ∷ xs) = refl

  start-IsFifo : (max_size : ℕ) → IsFifo (start max_size)
  unfolding init
  start-IsFifo max_size = record { in_order = refl; bounded = omega arith }

  step-IsFifo : (t : Trace A) (c : Call A) → IsFifo t → IsFifo (step t c)
  unfolding step
  step-IsFifo t (push_call a) h = ground (arith, push-IsFifo a t h)
  step-IsFifo t (try_push_call a) h = ground (arith, push-IsFifo a t h)
  step-IsFifo t pop_call h = ground (arith, pop-IsFifo t t.queue.items refl h)
  step-IsFifo t pop_with_timeout_call h = ground (arith, pop-IsFifo t t.queue.items refl h)
  step-IsFifo t shutdown_call h = record { in_order = h.in_order; bounded = h.bounded }

  max_size-step : (t : Trace A) (c : Call A) → (step t c).queue.max_size ≡ t.queue.max_size
  unfolding step
  max_size-step t (push_call a) = ground arith
  max_size-step t (try_push_call a) = ground arith
  max_size-step t pop_call = ground (arith, max_size-pop t t.queue.items)
  max_size-step t pop_with_timeout_call = ground (arith, max_size-pop t t.queue.items)
  max_size-step t shutdown_call = refl

  run-IsFifo :
      (t : Trace A) (calls : List (Call A))
      → IsFifo t
      → IsFifo (run t calls) × ((run t calls).queue.max_size ≡ t.queue.max_size)
  unfolding run
  run-IsFifo t [] h = (h, refl)
  run-IsFifo t (c ∷ calls) h =
      let (later, size) = run-IsFifo (step t c) calls (step-IsFifo t c h) in
      (later, size ∙ max_size-step t c)

  -- Whatever calls the threads make, in whatever order they take the lock: the items delivered, and
  -- then those still queued, are the items accepted, in the order of their acceptance, with none
  -- lost or repeated; and never more than `max_size` items are queued.
  pub run_fifo :
      (max_size : ℕ) (calls : List (Call A))
      → ((run (start max_size) calls).accepted
          ≡ (run (start max_size) calls).delivered ++ (run (start max_size) calls).queue.items)
        × (length (run (start max_size) calls).queue.items ≤ max_size)
  unfolding init
  run_fifo max_size calls =
      let (h, size) = run-IsFifo (start max_size) calls (start-IsFifo max_size) in
      (h.in_order, subst (λ n. length (run (start max_size) calls).queue.items ≤ n) size h.bounded)
