-- ===== src/Queue.antt =====
-- `ThreadSafeQueue` of dpi/thread_safe_queue.py. Each method runs under the one lock, so it is one
-- step on the state. A call whose `wait_for` is not over is `blocked`: its thread waits, and the
-- state is as it was. The two condition variables only wake waiting threads, which look again.
pub mod Fifo
pub mod Closing
use python_deep_packet_inspe.Prelude.{
  ℕ, suc, Bool, true, false, not, ◌||◌, Option, none, some, List, [], ◌∷◌, ◌++◌, length, ltb, leb,
  if◌then◌else◌,
}

pub record Queue {ℓ} (A : Type ℓ) : Type ℓ where
  pub items : List A
  pub max_size : ℕ
  pub is_shutdown : Bool

pub data Outcome {ℓ} (B : Type ℓ) : Type ℓ where
  blocked : Outcome B
  done : B → Outcome B

module _ {ℓ} {A : Type ℓ} where
  unfoldable pub init : ℕ → Queue A
  init max_size = record { items = []; max_size = max_size; is_shutdown = false }

  -- The queue after the call, and whether the item is in it.
  unfoldable pub push : A → Queue A → Outcome (Queue A × Bool)
  push item q =
      if ltb (length q.items) q.max_size || q.is_shutdown
      then (if q.is_shutdown
          then done (q, false)
          else done (record q { items = q.items ++ item ∷ [] }, true))
      else blocked

  unfoldable pub try_push : A → Queue A → Queue A × Bool
  try_push item q =
      if leb q.max_size (length q.items) || q.is_shutdown
      then (q, false)
      else (record q { items = q.items ++ item ∷ [] }, true)

  -- `popleft`, after the test for an empty queue.
  unfoldable pub take_front : List A → Queue A → Queue A × Option A
  take_front [] q = (q, none)
  take_front (item ∷ rest) q = (record q { items = rest }, some item)

  unfoldable pub pop : Queue A → Outcome (Queue A × Option A)
  unfolding take_front
  pop q = if ltb 0 (length q.items) || q.is_shutdown then done (take_front q.items q) else blocked

  -- The state is the one at which the wait ends, by its condition or by the time limit.
  unfoldable pub pop_with_timeout : Queue A → Queue A × Option A
  unfolding take_front
  pop_with_timeout q =
      if not (ltb 0 (length q.items) || q.is_shutdown) then (q, none) else take_front q.items q

  unfoldable pub shutdown : Queue A → Queue A
  shutdown q = record q { is_shutdown = true }

  unfoldable pub empty : Queue A → Bool
  empty q = leb (length q.items) 0

  unfoldable pub size : Queue A → ℕ
  size q = length q.items
