-- ===== src/Queue/Order.antt =====
-- Any interleaving of the queue's methods: order, loss and bound.
use pi_webrtc.Prelude.{
  ℕ, ◌≤◌, ◌≡◌, refl, sym, ap, ◌∙◌, inl, inr, Bool-cases, List, [], ◌∷◌, ◌++◌, Bool, true, false,
  Option, none, some, length, length-append, append-nil, append_assoc, arith, leb,
}
use pi_webrtc.Queue.{ThreadSafeQueue, create, push, take_front, pop, pop_wait, full, clear}

-- What the threads do, in the order in which they take the mutex.
pub data Call {ℓ} (A : Type ℓ) : Type ℓ where
  pushes : A → Call A
  pops waits clears : Call A

-- The values that calls accepted, and those that left the queue, in order.
pub record Trace {ℓ} (A : Type ℓ) : Type ℓ where
  pub state : ThreadSafeQueue A
  pub accepted : List A
  pub removed : List A

module _ {ℓ} {A : Type ℓ} where
  abbrev popped : Trace A → ThreadSafeQueue A × Option A → Trace A
  popped t (q, none) = record t { state = q }
  popped t (q, some a) = record t { state = q; removed = t.removed ++ a ∷ [] }

  abbrev pushed : Trace A → A → ThreadSafeQueue A × Bool → Trace A
  pushed t a (q, true) = record t { state = q; accepted = t.accepted ++ a ∷ [] }
  pushed t a (q, false) = record t { state = q }

  pub step : Trace A → Call A → Trace A
  step t (pushes a) = pushed t a (push a t.state)
  step t pops = popped t (pop t.state)
  step t waits = popped t (pop_wait t.state)
  step t clears = record t { state = clear t.state; removed = t.removed ++ t.state.queue }

  unfoldable pub run : Trace A → List (Call A) → Trace A
  unfolding step push pop pop_wait take_front clear
  run t [] = t
  run t (c ∷ cs) = run (step t c) cs

  abbrev pub start : ℕ → Trace A
  start n = record { state = create n; accepted = []; removed = [] }

  -- What has left, followed by what is queued, is what was accepted.
  abbrev pub IsFifo : Trace A → Type ℓ
  IsFifo t = t.removed ++ t.state.queue ≡ t.accepted

  take_front-IsFifo :
      (xs : List A) (t : Trace A)
      → t.state.queue ≡ xs
      → IsFifo t
      → IsFifo (popped t (take_front xs t.state))
  unfolding take_front
  take_front-IsFifo [] t e f = f
  take_front-IsFifo (x ∷ xs) t e f =
      append_assoc t.removed (x ∷ []) xs ∙ (ap (◌++◌ t.removed) (sym e) ∙ f)

  pop_front : (t : Trace A) → popped t (pop t.state) ≡ popped t (take_front t.state.queue t.state)
  unfolding pop take_front
  pop_front t = ground arith

  pop_wait_front :
      (t : Trace A) → popped t (pop_wait t.state) ≡ popped t (take_front t.state.queue t.state)
  unfolding pop_wait take_front
  pop_wait_front t = ground arith

  step-IsFifo : (t : Trace A) (c : Call A) → IsFifo t → IsFifo (step t c)
  unfolding step push clear
  step-IsFifo t (pushes a) f = elim (Bool-cases (leb t.state.max_size (length t.state.queue))) [
    | inl full ↦ rw full f
    | inr room ↦
        rw room (sym (append_assoc t.removed t.state.queue (a ∷ [])) ∙ ap (λ l. l ++ a ∷ []) f)
  ]
  step-IsFifo t pops f = rw (pop_front t) (take_front-IsFifo t.state.queue t refl f)
  step-IsFifo t waits f = rw (pop_wait_front t) (take_front-IsFifo t.state.queue t refl f)
  step-IsFifo t clears f = append-nil _ ∙ f

  run_from-IsFifo : (t : Trace A) (cs : List (Call A)) → IsFifo t → IsFifo (run t cs)
  unfolding run
  run_from-IsFifo t [] f = f
  run_from-IsFifo t (c ∷ cs) f = run_from-IsFifo (step t c) cs (step-IsFifo t c f)

  -- Whatever calls of push, pop, the timed pop and clear the threads make on a new queue, and in
  -- whatever order, the values that have left the queue followed by those still queued are the
  -- values that push accepted, in the order of acceptance.
  pub run-IsFifo : (n : ℕ) (cs : List (Call A)) → IsFifo (run (start n) cs)
  run-IsFifo n cs = run_from-IsFifo (start n) cs refl

  abbrev pub IsBounded : ℕ → ThreadSafeQueue A → Type 0
  IsBounded n q = (q.max_size ≡ n) × (length q.queue ≤ n)

  step-IsBounded :
      (n : ℕ) (t : Trace A) (c : Call A) → IsBounded n t.state → IsBounded n (step t c).state
  unfolding step push pop pop_wait clear take_front
  step-IsBounded n t (pushes a) f = ground (arith, length-append t.state.queue (a ∷ []))
  step-IsBounded n t pops f = ground arith
  step-IsBounded n t waits f = ground arith
  step-IsBounded n t clears f = (f.0, omega arith)

  run_from-IsBounded :
      (n : ℕ) (t : Trace A) (cs : List (Call A))
      → IsBounded n t.state
      → IsBounded n (run t cs).state
  unfolding run
  run_from-IsBounded n t [] f = f
  run_from-IsBounded n t (c ∷ cs) f = run_from-IsBounded n (step t c) cs (step-IsBounded n t c f)

  -- After any calls a new queue of limit `n` still has that limit and holds at most `n` values.
  pub run-IsBounded : (n : ℕ) (cs : List (Call A)) → IsBounded n (run (start n) cs).state
  run-IsBounded n cs = run_from-IsBounded n (start n) cs (refl, omega arith)
