-- ===== src/Subject.antt =====
-- src/common/interface/subject.h: the observer list behind `Subscribe` and `Next`.
-- A `shared_ptr<Observer>` is known by its address, a number that `Subscribe` draws afresh. What
-- a callback does to the subject while `Next` runs is a parameter.
pub mod Delivery
mod Tests
use pi_webrtc.Prelude.{
  ℕ, suc, List, [], ◌∷◌, ◌++◌, Bool, true, false, not, Option, none, some, length, keep_if, eqb,
  if◌then◌else◌,
}

pub record Observer (C : Type 0) : Type 0 where
  pub address : ℕ
  pub callback : C

-- `alive` is whether the subject's `alive_` still exists; `next_address` stands for the allocator.
pub record Subject (C : Type 0) : Type 0 where
  pub alive : Bool
  pub observers : List (Observer C)
  pub next_address : ℕ

-- What a `Subscription` holds: the observer that its function removes, or no function.
abbrev pub Subscription : Type 0
Subscription = Option ℕ

module _ {C : Type 0} where
  abbrev pub create : Subject C
  create = record { alive = true; observers = []; next_address = 0 }

  pub subscribe : C → Subject C → Subject C × Subscription
  subscribe callback s =
      let observer : Observer C = record { address = s.next_address; callback = callback } in
      (
        record s { observers = s.observers ++ observer ∷ []; next_address = suc s.next_address },
        some s.next_address,
      )

  -- `~Subscription`.
  pub unsubscribe : Subscription → Subject C → Subject C
  unsubscribe none s = s
  unsubscribe (some a) s =
      if not s.alive
      then s
      else record s { observers = keep_if (λ o. not (eqb o.address a)) s.observers }

  module _ {T : Type 0} (behave : C → T → Subject C → Subject C) where
    -- The loop of `Next` over its snapshot, with the calls it makes.
    pub deliver : List (Observer C) → T → Subject C → Subject C × List (Observer C)
    deliver [] value s = (s, [])
    deliver (o ∷ os) value s =
        let (s', calls) = deliver os value (behave o.callback value s) in (s', o ∷ calls)

    pub next : T → Subject C → Subject C × List (Observer C)
    unfolding deliver
    next value s = deliver s.observers value s

  pub observer_count : Subject C → ℕ
  observer_count s = length s.observers
