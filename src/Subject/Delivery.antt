-- ===== src/Subject/Delivery.antt =====
-- Who is called: an observer from its `Subscribe` until its `Subscription` goes, once a `Next`.
use pi_webrtc.Prelude.{
  ℕ, ◌+◌, ◌≤◌, ◌<◌, ◌≡◌, refl, ap, ◌∙◌, ◌≢◌, List, [], ◌∷◌, ◌++◌, true, some, none, eqb,
  if◌then◌else◌, keep_if, not, All, arith,
}
use pi_webrtc.Subject.{Observer, Subject, Subscription, subscribe, unsubscribe, deliver, next}

-- Other code's use of the subject, in any order.
pub data Call (C : Type 0) : Type 0 where
  subscribes : C → Call C
  drops : Subscription → Call C

module _ {C : Type 0} where
  -- How often the observer at an address stands in a list.
  abbrev pub count : ℕ → List (Observer C) → ℕ
  count a [] = 0
  count a (o ∷ os) = (if eqb o.address a then 1 else 0) + count a os

  count-append : (a : ℕ) (xs ys : List (Observer C)) → count a (xs ++ ys) ≡ count a xs + count a ys
  count-append a [] ys = omega arith
  count-append a (x ∷ xs) ys = omega (arith, count-append a xs ys)

  count-remove :
      (a b : ℕ) (xs : List (Observer C))
      → count a (keep_if (λ o. not (eqb o.address b)) xs) ≡ (if eqb a b then 0 else count a xs)
  count-remove a b [] = ground arith
  count-remove a b (x ∷ xs) = ground (arith, count-remove a b xs)

  pub step : Subject C → Call C → Subject C
  step s (subscribes callback) = (subscribe callback s).0
  step s (drops sub) = unsubscribe sub s

  unfoldable pub run : Subject C → List (Call C) → Subject C
  unfolding step subscribe unsubscribe
  run s [] = s
  run s (c ∷ cs) = run (step s c) cs

  -- No observer has an address yet to be drawn.
  abbrev pub IsFresh : Subject C → Type 0
  IsFresh s = (a : ℕ) → s.next_address ≤ a → count a s.observers ≡ 0

  step-count :
      (s : Subject C) (c : Call C) (a : ℕ)
      → a < s.next_address
      → (c ≢ drops (some a))
      → (count a (step s c).observers ≡ count a s.observers) × (a < (step s c).next_address)
  unfolding step subscribe unsubscribe
  step-count s (subscribes callback) a h n = ground (
    arith,
    count-append a s.observers (record { address = s.next_address; callback = callback } ∷ []),
  )
  step-count s (drops none) a h n = (refl, h)
  step-count s (drops (some b)) a h n = ground (arith, count-remove a b s.observers)

  step-silent :
      (s : Subject C) (c : Call C) (a : ℕ)
      → a < s.next_address
      → count a s.observers ≡ 0
      → (count a (step s c).observers ≡ 0) × (a < (step s c).next_address)
  unfolding step subscribe unsubscribe
  step-silent s (subscribes callback) a h z = ground (
    arith,
    count-append a s.observers (record { address = s.next_address; callback = callback } ∷ []),
  )
  step-silent s (drops none) a h z = (z, h)
  step-silent s (drops (some b)) a h z = ground (arith, count-remove a b s.observers)

  abbrev pub Keeps : ℕ → List (Call C) → Type 0
  Keeps a = All (λ c. c ≢ drops (some a))

  run-count :
      (s : Subject C) (cs : List (Call C)) (a : ℕ)
      → a < s.next_address
      → Keeps a cs
      → count a (run s cs).observers ≡ count a s.observers
  unfolding run
  run-count s [] a h k = refl
  run-count s (c ∷ cs) a h k =
      let now = step-count s c a h k.0 in run-count (step s c) cs a now.1 k.1 ∙ now.0

  run-silent :
      (s : Subject C) (cs : List (Call C)) (a : ℕ)
      → a < s.next_address
      → count a s.observers ≡ 0
      → count a (run s cs).observers ≡ 0
  unfolding run
  run-silent s [] a h z = z
  run-silent s (c ∷ cs) a h z =
      let now = step-silent s c a h z in run-silent (step s c) cs a now.1 now.0

  step-IsFresh : (s : Subject C) (c : Call C) → IsFresh s → IsFresh (step s c)
  unfolding step subscribe unsubscribe
  step-IsFresh s (subscribes callback) f a h = ground (
    arith,
    f a,
    count-append a s.observers (record { address = s.next_address; callback = callback } ∷ []),
  )
  step-IsFresh s (drops none) f a h = f a h
  step-IsFresh s (drops (some b)) f a h = ground (arith, f a, count-remove a b s.observers)

  pub run-IsFresh : (s : Subject C) (cs : List (Call C)) → IsFresh s → IsFresh (run s cs)
  unfolding run
  run-IsFresh s [] f = f
  run-IsFresh s (c ∷ cs) f = run-IsFresh (step s c) cs (step-IsFresh s c f)

  module _ {T : Type 0} (behave : C → T → Subject C → Subject C) where
    deliver-calls :
        (os : List (Observer C)) (v : T) (s : Subject C) → (deliver behave os v s).1 ≡ os
    unfolding deliver
    deliver-calls [] v s = refl
    deliver-calls (o ∷ os) v s = ap (◌∷◌ o) (deliver-calls os v (behave o.callback v s))

    -- `Next` calls the observers subscribed when it starts, each as often as it stands there and
    -- in the order of subscription, whatever the callbacks do to the subject meanwhile.
    pub next-calls : (v : T) (s : Subject C) → (next behave v s).1 ≡ s.observers
    unfolding next
    next-calls v s = deliver-calls s.observers v s

    -- An observer that subscribed to a subject whose addresses are fresh, and whose subscription
    -- no later call drops, is called exactly once by a `Next`, whatever else is subscribed and
    -- dropped in between.
    pub subscribed_called :
        (v : T) (s : Subject C) (callback : C) (cs : List (Call C))
        → IsFresh s
        → Keeps s.next_address cs
        → count s.next_address (next behave v (run (subscribe callback s).0 cs)).1 ≡ 1
    unfolding subscribe
    subscribed_called v s callback cs f k =
        ap (count s.next_address) (next-calls v _)
        ∙ run-count (subscribe callback s).0 cs s.next_address (omega arith) k
        ∙ ground (
          arith,
          f s.next_address,
          count-append s.next_address s.observers
              (record { address = s.next_address; callback = callback } ∷ []),
        )

    -- Once the subscription of an observer with an address that was drawn is dropped, on a
    -- living subject, that observer is not called by any later `Next`, whatever is subscribed
    -- and dropped in between.
    pub dropped_silent :
        (v : T) (s : Subject C) (a : ℕ) (cs : List (Call C))
        → s.alive ≡ true
        → a < s.next_address
        → count a (next behave v (run (unsubscribe (some a) s) cs)).1 ≡ 0
    unfolding unsubscribe
    dropped_silent v s a cs l h =
        ap (count a) (next-calls v _)
        ∙ run-silent (unsubscribe (some a) s) cs a (ground arith)
            (ground (arith, count-remove a a s.observers))
