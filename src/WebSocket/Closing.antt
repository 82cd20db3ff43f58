-- ===== src/WebSocket/Closing.antt =====
-- The close callback of src/signaling/websocket_client.cpp.
use pi_webrtc.Prelude.{
  ℕ, ◌+◌, ◌≡◌, refl, ap, Bool, true, false, not, ◌&&◌, List, [], ◌∷◌, ◌++◌, Bytes, arith,
}
use pi_webrtc.WebSocket.Client
use pi_webrtc.WebSocket.Runs

abbrev pub close_calls : List Client.Action → ℕ
close_calls [] = 0
close_calls (Client.Action.calls_on_close code reason ∷ as') = 1 + close_calls as'
close_calls (a ∷ as') = close_calls as'

abbrev pub one_if : Bool → ℕ
one_if true = 1
one_if false = 0

close_calls-append :
    (as' bs : List Client.Action) → close_calls (as' ++ bs) ≡ close_calls as' + close_calls bs
close_calls-append [] bs = omega arith
close_calls-append (Client.Action.calls_on_close code reason ∷ as') bs =
    omega (arith, close_calls-append as' bs)
close_calls-append (Client.Action.posts_finish ∷ as') bs = close_calls-append as' bs
close_calls-append (Client.Action.async_resolves ∷ as') bs = close_calls-append as' bs
close_calls-append (Client.Action.async_connects ∷ as') bs = close_calls-append as' bs
close_calls-append (Client.Action.tls_handshakes ∷ as') bs = close_calls-append as' bs
close_calls-append (Client.Action.async_handshakes ∷ as') bs = close_calls-append as' bs
close_calls-append (Client.Action.async_reads ∷ as') bs = close_calls-append as' bs
close_calls-append (Client.Action.schedules_ping ∷ as') bs = close_calls-append as' bs
close_calls-append (Client.Action.resets_silence ∷ as') bs = close_calls-append as' bs
close_calls-append (Client.Action.cancels_timers ∷ as') bs = close_calls-append as' bs
close_calls-append (Client.Action.closes_socket ∷ as') bs = close_calls-append as' bs
close_calls-append (Client.Action.calls_on_open ∷ as') bs = close_calls-append as' bs
close_calls-append (Client.Action.queues f ∷ as') bs = close_calls-append as' bs
close_calls-append (Client.Action.async_writes f ∷ as') bs = close_calls-append as' bs
close_calls-append (Client.Action.async_closes code reason ∷ as') bs = close_calls-append as' bs
close_calls-append (Client.Action.calls_on_message payload ∷ as') bs = close_calls-append as' bs

close_calls-quiet : (as' : List Client.Action) → Runs.AreQuiet as' → close_calls as' ≡ 0
close_calls-quiet [] q = refl
close_calls-quiet (Client.Action.posts_finish ∷ as') q = close_calls-quiet as' q
close_calls-quiet (Client.Action.async_resolves ∷ as') q = close_calls-quiet as' q
close_calls-quiet (Client.Action.async_connects ∷ as') q = close_calls-quiet as' q
close_calls-quiet (Client.Action.tls_handshakes ∷ as') q = close_calls-quiet as' q
close_calls-quiet (Client.Action.async_handshakes ∷ as') q = close_calls-quiet as' q
close_calls-quiet (Client.Action.async_reads ∷ as') q = close_calls-quiet as' q
close_calls-quiet (Client.Action.schedules_ping ∷ as') q = close_calls-quiet as' q
close_calls-quiet (Client.Action.resets_silence ∷ as') q = close_calls-quiet as' q
close_calls-quiet (Client.Action.cancels_timers ∷ as') q = close_calls-quiet as' q
close_calls-quiet (Client.Action.closes_socket ∷ as') q = close_calls-quiet as' q
close_calls-quiet (Client.Action.calls_on_open ∷ as') q = close_calls-quiet as' q
close_calls-quiet (Client.Action.queues f ∷ as') q = elim q [ ]
close_calls-quiet (Client.Action.async_writes f ∷ as') q = elim q [ ]
close_calls-quiet (Client.Action.async_closes code reason ∷ as') q = close_calls-quiet as' q
close_calls-quiet (Client.Action.calls_on_message payload ∷ as') q = close_calls-quiet as' q
close_calls-quiet (Client.Action.calls_on_close code reason ∷ as') q = elim q [ ]

-- With a callback at first, if `set`: it is there until the client finishes.
abbrev pub IsSettled : Bool → Client.Client → Type 0
IsSettled set c = c.has_on_close ≡ (set && not c.finished)

-- The callback is called as often as it goes from set to not set.
pub record Settles (set : Bool) (c : Client.Client) (d : Client.Did) : Type 0 where
  pub called : close_calls d.1 + one_if d.0.has_on_close ≡ one_if c.has_on_close
  pub settled : IsSettled set d.0

module _ (set : Bool) where
  Settles-andthen :
      (c : Client.Client) (d : Client.Did) (f : Client.Client → Client.Did)
      → Settles set c d
      → (IsSettled set d.0 → Settles set d.0 (f d.0))
      → Settles set c (Client.◌andthen◌ d f)
  Settles-andthen c d f h k = record {
    called = omega (arith, close_calls-append d.1 (f d.0).1, h.called, (k h.settled).called);
    settled = (k h.settled).settled;
  }

  finish-Settles :
      (code : ℕ) (reason : Bytes) (c : Client.Client)
      → IsSettled set c
      → Settles set c (Client.finish code reason c)
  unfolding Client.finish
  finish-Settles code reason c h = record { called = ground arith; settled = ground arith }

  do_write-Settles : (c : Client.Client) → IsSettled set c → Settles set c (Client.do_write c)
  unfolding Client.do_write
  do_write-Settles c h = record { called = ground arith; settled = ground arith }

  -- A step that calls nobody, and sets nothing that matters here.
  quiet :
      (c c' : Client.Client) (as' : List Client.Action)
      → close_calls as' ≡ 0
      → c'.has_on_close ≡ c.has_on_close
      → c'.finished ≡ c.finished
      → IsSettled set c
      → Settles set c (c', as')
  quiet c c' as' e f g h = record { called = omega (arith, ap one_if f); settled = ground arith }

  failed-Settles :
      (why : Bytes) (c : Client.Client)
      → c.finished ≡ false
      → IsSettled set c
      → Settles set c (Client.finish 0 why (record c { writing = false }))
  failed-Settles why c live h =
      let k = finish-Settles 0 why (record c { writing = false }) h in
      record { called = k.called; settled = k.settled }

  fits : (e : Client.Event) (c : Client.Client) → Runs.EventFits (λ _. Unit) e c
  fits (Client.Event.opens url) c = tt
  fits Client.Event.posted c = tt
  fits (Client.Event.acts op) c = tt
  fits (Client.Event.resolved r) c = tt
  fits (Client.Event.tls_handshaken r) c = tt
  fits (Client.Event.wrote r) c = tt
  fits (Client.Event.connected b r) c = tt
  fits (Client.Event.handshaken ops r) c = tt
  fits (Client.Event.reads ops r) c = tt
  fits Client.Event.close_done c = tt
  fits Client.Event.ping_due c = tt
  fits Client.Event.silence_due c = tt

  all_fit : (es : List Client.Event) (c : Client.Client) → Runs.AllFit (λ _. Unit) es c
  all_fit [] c = tt
  all_fit (e ∷ es) c = (fits e c, all_fit es (Client.step e c).0)

  run-Settles :
      (es : List Client.Event) (c : Client.Client)
      → IsSettled set c
      → Settles set c (Client.run es c)
  run-Settles es c h =
      Runs.run-P (IsSettled set) (Settles set) (λ _. Unit) Settles-andthen finish-Settles
        do_write-Settles (λ f c live k. quiet c _ (Client.Action.queues f ∷ []) refl refl refl k)
        (λ c done k. quiet c _ [] refl refl refl k) (λ c live w k. quiet c _ [] refl refl refl k)
        failed-Settles
        (λ c c' as' q s k. quiet c c' as' (close_calls-quiet as' q) s.callback s.finished k) es c
        (all_fit es c) h

-- A client that has not finished, whatever its callbacks do and whatever ends how and when: the close callback is
-- called once if it is set and the client has finished, and otherwise not at all.
pub run-closes_once :
    (es : List Client.Event) (c : Client.Client)
    → c.finished ≡ false
    → let (c', as') = Client.run es c in close_calls as' ≡ one_if (c.has_on_close && c'.finished)
run-closes_once es c h =
    let k = run-Settles c.has_on_close es c (ground arith) in ground (arith, k.called, k.settled)
