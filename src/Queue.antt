-- ===== src/Queue.antt =====
-- src/common/thread_safe_queue.h: the bounded queue between a producer and a consumer thread.
-- Every method holds the mutex throughout, so each is one step on the state; `Order` runs any
-- interleaving of them.
pub mod Order
mod Tests
use pi_webrtc.Prelude.{
  ℕ, List, [], ◌∷◌, ◌++◌, Bool, true, false, not, Option, none, some, length, is_empty, leb,
  if◌then◌else◌,
}

-- The front of the `std::queue` is the head of `queue`.
pub record ThreadSafeQueue {ℓ} (A : Type ℓ) : Type ℓ where
  pub queue : List A
  pub max_size : ℕ

module _ {ℓ} {A : Type ℓ} where
  abbrev pub create : ℕ → ThreadSafeQueue A
  create max_size = record { queue = []; max_size = max_size }

  pub push : A → ThreadSafeQueue A → ThreadSafeQueue A × Bool
  push t q =
      if leb q.max_size (length q.queue)
      then (q, false)
      else (record q { queue = q.queue ++ t ∷ [] }, true)

  -- `front()` and `pop()` of the `std::queue` behind the emptiness test.
  take_front : List A → ThreadSafeQueue A → ThreadSafeQueue A × Option A
  take_front [] q = (q, none)
  take_front (t ∷ rest) q = (record q { queue = rest }, some t)

  pub pop : ThreadSafeQueue A → ThreadSafeQueue A × Option A
  unfolding take_front
  pop q = if is_empty q.queue then (q, none) else take_front q.queue q

  -- The state is the one at which the wait ends. `wait_for` returns its predicate there, by a
  -- notification or by the timeout.
  pub pop_wait : ThreadSafeQueue A → ThreadSafeQueue A × Option A
  unfolding take_front
  pop_wait q =
      let notified = not (is_empty q.queue) in
      if not notified then (q, none) else take_front q.queue q

  peek : List A → Option A
  peek [] = none
  peek (t ∷ rest) = some t

  pub front : ThreadSafeQueue A → Option A
  unfolding peek
  front q = if is_empty q.queue then none else peek q.queue

  pub full : ThreadSafeQueue A → Bool
  full q = leb q.max_size (length q.queue)

  pub empty : ThreadSafeQueue A → Bool
  empty q = is_empty q.queue

  pub size : ThreadSafeQueue A → ℕ
  size q = length q.queue

  pub clear : ThreadSafeQueue A → ThreadSafeQueue A
  clear q = record q { queue = [] }
