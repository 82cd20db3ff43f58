-- ===== src/Subject/Tests.antt =====
-- A subject with two observers, one of which drops the other's subscription when it is called.
use pi_webrtc.Prelude.{ℕ, ◌≡◌, refl, List, [], ◌∷◌, some}
use pi_webrtc.Subject.{Subject, create, subscribe, unsubscribe, next}
use pi_webrtc.Subject.Delivery.{
  Call, subscribes, drops, count, run, IsFresh, run-IsFresh, subscribed_called,
}

abbrev drop_second : ℕ → ℕ → Subject ℕ → Subject ℕ
drop_second callback value s = unsubscribe (some 1) s

abbrev history : List (Call ℕ)
history = subscribes 10 ∷ subscribes 20 ∷ []

abbrev two_observers : Subject ℕ
two_observers = run create history

two_observers-IsFresh : IsFresh two_observers
two_observers-IsFresh = run-IsFresh create history (λ a h. refl)

two_observers_are :
    two_observers.observers
    ≡ record { address = 0; callback = 10 } ∷ record { address = 1; callback = 20 } ∷ []
unfolding run
two_observers_are = refl

subscribed_called_example :
    count two_observers.next_address
      (next drop_second 5 (run (subscribe 30 two_observers).0 (drops (some 0) ∷ []))).1
    ≡ 1
unfolding run
subscribed_called_example =
    subscribed_called drop_second 5 two_observers 30 (drops (some 0) ∷ []) two_observers-IsFresh
      ((λ e. cc), tt)
