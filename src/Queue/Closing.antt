-- ===== src/Queue/Closing.antt =====
-- `shutdown` of dpi/thread_safe_queue.py: nothing enters afterwards, and the backlog drains.
use python_deep_packet_inspe.Prelude.{
  ◌≡◌, refl, ap, ◌∙◌, true, none, List, [], ◌∷◌, ◌++◌, append-nil, append_assoc, length, replicate,
  arith,
}
use python_deep_packet_inspe.Queue.Fifo.{
  Call, push_call, try_push_call, pop_call, pop_with_timeout_call, shutdown_call, Trace, step, run,
  note_pop,
}
use python_deep_packet_inspe.Queue.{done, pop, take_front}

module _ {ℓ} {A : Type ℓ} where
  pop_closed :
      (t : Trace A) (xs : List A)
      → ((note_pop t (take_front xs t.queue)).queue.is_shutdown ≡ t.queue.is_shutdown)
        × ((note_pop t (take_front xs t.queue)).accepted ≡ t.accepted)
  unfolding note_pop take_front
  pop_closed t [] = (refl, refl)
  pop_closed t (x ∷ xs) = (refl, refl)

  step_closed :
      (t : Trace A) (c : Call A)
      → t.queue.is_shutdown ≡ true
      → ((step t c).queue.is_shutdown ≡ true) × ((step t c).accepted ≡ t.accepted)
  unfolding step
  step_closed t (push_call a) h = ground arith
  step_closed t (try_push_call a) h = ground arith
  step_closed t pop_call h = ground (arith, pop_closed t t.queue.items)
  step_closed t pop_with_timeout_call h = ground (arith, pop_closed t t.queue.items)
  step_closed t shutdown_call h = (refl, refl)

  -- After shutdown no later call, blocking or not, adds an item, and the queue stays shut down.
  pub run_closed :
      (t : Trace A) (calls : List (Call A))
      → t.queue.is_shutdown ≡ true
      → ((run t calls).queue.is_shutdown ≡ true) × ((run t calls).accepted ≡ t.accepted)
  unfolding run
  run_closed t [] h = (h, refl)
  run_closed t (c ∷ calls) h =
      let (h', e) = step_closed t c h in
      let (h'', e') = run_closed (step t c) calls h' in (h'', e' ∙ e)

  -- A queue that is shut down and holds `items`.
  abbrev closed : List A → Trace A → Trace A
  closed items t = record t {
    queue = record { items = items; max_size = t.queue.max_size; is_shutdown = true };
  }

  step_drain :
      (x : A) (xs : List A) (t : Trace A)
      → step (closed (x ∷ xs) t) pop_call
        ≡ closed xs (record t { delivered = t.delivered ++ x ∷ [] })
  unfolding step
  step_drain x xs t = ground arith

  drain_items :
      (xs : List A) (t : Trace A)
      → run (closed xs t) (replicate (length xs) pop_call)
        ≡ closed [] (record t { delivered = t.delivered ++ xs })
  unfolding run
  drain_items [] t = rw append-nil
  drain_items (x ∷ xs) t =
      ap (λ s. run s (replicate (length xs) pop_call)) (step_drain x xs t)
      ∙ drain_items xs (record t { delivered = t.delivered ++ x ∷ [] })
      ∙ ap (λ l. closed [] (record t { delivered = l })) (append_assoc t.delivered (x ∷ []) xs)

  -- What was queued at shutdown is still delivered: as many calls of `pop` as there are items
  -- deliver them in order, and the next `pop` returns `none` and does not block.
  pub shutdown_drains :
      (t : Trace A)
      → ((run (step t shutdown_call) (replicate (length t.queue.items) pop_call)).delivered
          ≡ t.delivered ++ t.queue.items)
        × (pop (run (step t shutdown_call) (replicate (length t.queue.items) pop_call)).queue
            ≡ done (record { items = []; max_size = t.queue.max_size; is_shutdown = true }, none))
  unfolding step pop
  shutdown_drains t = let e = drain_items t.queue.items t in (rw e refl, rw e refl)
