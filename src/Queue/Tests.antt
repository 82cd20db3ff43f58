-- ===== src/Queue/Tests.antt =====
-- Runs of the queue, and its theorems at concrete inputs.
use pi_webrtc.Prelude.{ℕ, ◌≡◌, refl, List, [], ◌∷◌}
use pi_webrtc.Queue.Order.{Call, pushes, pops, waits, clears, start, run, IsFifo, run-IsFifo}

abbrev calls : List (Call ℕ)
calls = pushes 7 ∷ pushes 8 ∷ pushes 9 ∷ pops ∷ pushes 9 ∷ waits ∷ clears ∷ pops ∷ []

-- The third push finds the queue of two full.
run-calls : (run (start 2) calls).removed ≡ 7 ∷ 8 ∷ 9 ∷ []
unfolding run
run-calls = refl

run-IsFifo_example : IsFifo (run (start 2) calls)
run-IsFifo_example = run-IsFifo 2 calls
