-- ===== src/WebSocket/Runs.antt =====
-- What holds of the pieces of a handler of src/signaling/websocket_client.cpp holds of each run.
use pi_webrtc.Prelude.{
  ℕ, ◌≡◌, refl, Bool, true, false, not, ◌&&◌, ◌||◌, List, [], ◌∷◌, ◌++◌, Bytes, none, some,
  is_empty, if◌then◌else◌, codes, if_either, arith,
}
use pi_webrtc.WebSocket.Client

-- The actions that neither touch a frame nor call the close callback.
abbrev pub AreQuiet : List Client.Action → Type 0
AreQuiet [] = Unit
AreQuiet (Client.Action.calls_on_close code reason ∷ as') = ⊥
AreQuiet (Client.Action.queues f ∷ as') = ⊥
AreQuiet (Client.Action.async_writes f ∷ as') = ⊥
AreQuiet (a ∷ as') = AreQuiet as'

-- Two states agree on frames, on being finished, and on the close callback.
pub record IsSame (c c' : Client.Client) : Type 0 where
  pub queue : c'.write_queue ≡ c.write_queue
  pub writing : c'.writing ≡ c.writing
  pub finished : c'.finished ≡ c.finished
  pub callback : c'.has_on_close ≡ c.has_on_close

pub same : (c : Client.Client) → IsSame c c
same c = record { queue = refl; writing = refl; finished = refl; callback = refl }

-- A write ends only in a state where `Writes` holds.
abbrev pub EventFits : (Client.Client → Type 0) → Client.Event → Client.Client → Type 0
EventFits Writes (Client.Event.wrote result) c = Writes c
EventFits Writes e c = Unit

abbrev pub AllFit : (Client.Client → Type 0) → List Client.Event → Client.Client → Type 0
AllFit Writes [] c = Unit
AllFit Writes (e ∷ es) c = EventFits Writes e c × AllFit Writes es (Client.step e c).0

-- `Writes` is what is asked of a state in which a write ends.
module _ (I : Client.Client → Type 0) (P : Client.Client → Client.Did → Type 0)
    (Writes : Client.Client → Type 0)
    (andthen-P : (c : Client.Client) (d : Client.Did) (f : Client.Client → Client.Did)
      → P c d
      → (I d.0 → P d.0 (f d.0))
      → P c (Client.◌andthen◌ d f))
    (finish-P : (code : ℕ) (reason : Bytes) (c : Client.Client)
      → I c
      → P c (Client.finish code reason c))
    (do_write-P : (c : Client.Client) → I c → P c (Client.do_write c))
    (push-P : (f : Client.Frame) (c : Client.Client)
      → c.finished ≡ false
      → I c
      → P c (record c { write_queue = c.write_queue ++ f ∷ [] }, Client.Action.queues f ∷ []))
    (cleared-P : (c : Client.Client)
      → c.finished ≡ true
      → I c
      → P c (record c { writing = false; write_queue = [] }, []))
    (popped-P : (c : Client.Client)
      → c.finished ≡ false
      → Writes c
      → I c
      → P c (record c { writing = false; write_queue = Client.rest_of c.write_queue }, []))
    (failed-P : (why : Bytes) (c : Client.Client)
      → c.finished ≡ false
      → I c
      → P c (Client.finish 0 why (record c { writing = false })))
    (quiet-P : (c c' : Client.Client) (as' : List Client.Action)
      → AreQuiet as'
      → IsSame c c'
      → I c
      → P c (c', as')) where
  queue-P :
      (payload : Bytes) (text : Bool) (c : Client.Client) → I c → P c (Client.queue payload text c)
  unfolding Client.queue
  queue-P payload text c h =
      let Q = P c in
      if_either Q (c.finished || c.closing) (λ _. quiet-P c c [] tt (same c) h)
        λ live.
          if_either Q (not c.open_) (λ _. quiet-P c c [] tt (same c) h)
            λ _.
              let f : Client.Frame = record { payload = payload; text = text } in
              let c' : Client.Client = record c { write_queue = c.write_queue ++ f ∷ [] } in
              andthen-P c (c', Client.Action.queues f ∷ []) Client.do_write
                (push-P f c (ground (arith, live)) h) (do_write-P c')

  close-P : (code : ℕ) (reason : Bytes) (c : Client.Client) → I c → P c (Client.close code reason c)
  unfolding Client.close
  close-P code reason c h =
      let Q = P c in
      let c' : Client.Client = record c {
        closing = true;
        close_code = code;
        close_reason = reason;
      } in
      let why = (if is_empty reason then codes "closed before it opened" else reason) in
      let marked =
        quiet-P c c' [] tt
          (record { queue = refl; writing = refl; finished = refl; callback = refl }) h in
      if_either Q (c.finished || c.closing) (λ _. quiet-P c c [] tt (same c) h)
        λ _.
          if_either Q (not c.open_)
            (λ _. andthen-P c (c', []) (Client.finish code why) marked (finish-P code why c'))
            (λ _. andthen-P c (c', []) Client.do_write marked (do_write-P c'))

  act_all-P : (ops : List Client.Op) (c : Client.Client) → I c → P c (Client.act_all ops c)
  unfolding Client.act_all Client.act
  act_all-P [] c h = quiet-P c c [] tt (same c) h
  act_all-P (Client.Op.sends payload ∷ ops) c h =
      andthen-P c (Client.queue payload false c) (Client.act_all ops) (queue-P payload false c h)
        (act_all-P ops (Client.queue payload false c).0)
  act_all-P (Client.Op.closes code reason ∷ ops) c h =
      andthen-P c (Client.close code reason c) (Client.act_all ops) (close-P code reason c h)
        (act_all-P ops (Client.close code reason c).0)

  -- A handler that finishes the client or asks Boost for something.
  finish_or :
      (b : Bool) (code : ℕ) (reason : Bytes) (c : Client.Client) (d : Client.Did)
      → P c d
      → I c
      → P c (if b then d else Client.finish code reason c)
  finish_or b code reason c d k h = if_either (P c) b (λ _. k) (λ _. finish-P code reason c h)

  asks :
      (b : Bool) (c : Client.Client) (as' : List Client.Action)
      → AreQuiet as'
      → I c
      → P c (if b then (c, []) else (c, as'))
  asks b c as' e h =
      if_either (P c) b (λ _. quiet-P c c [] tt (same c) h) (λ _. quiet-P c c as' e (same c) h)

  callback :
      (b : Bool) (ops : List Client.Op) (a : Client.Action) (c : Client.Client)
      → AreQuiet (a ∷ [])
      → I c
      → P c (Client.if_set b (Client.◌andthen◌ (c, a ∷ []) (Client.act_all ops)) c)
  callback b ops a c e h =
      if_either (P c) b
        (λ _.
          andthen-P c (c, a ∷ []) (Client.act_all ops) (quiet-P c c (a ∷ []) e (same c) h)
            (act_all-P ops c))
        (λ _. quiet-P c c [] tt (same c) h)

  on_handshake-P :
      (ops : List Client.Op) (c : Client.Client)
      → I c
      → P c (Client.on_handshake ops Client.Result.succeeded c)
  unfolding Client.on_handshake
  on_handshake-P ops c h =
      let c' : Client.Client = record c { open_ = true } in
      let asked : List Client.Action =
        Client.Action.schedules_ping ∷ Client.Action.resets_silence ∷ Client.Action.async_reads
        ∷ [] in
      let call =
        Client.if_set c'.has_on_open
          (Client.◌andthen◌ (c', Client.Action.calls_on_open ∷ []) (Client.act_all ops)) in
      if_either (P c) c.finished (λ _. quiet-P c c [] tt (same c) h)
        λ _.
          andthen-P c (Client.◌andthen◌ (c', asked) call) Client.do_write
            (andthen-P c (c', asked) call
              (quiet-P c c' asked tt
                (record { queue = refl; writing = refl; finished = refl; callback = refl }) h)
              (callback c'.has_on_open ops Client.Action.calls_on_open c' tt))
            (do_write-P _)

  on_read-P :
      (ops : List Client.Op) (result : Client.ReadResult) (c : Client.Client)
      → I c
      → P c (Client.on_read ops result c)
  unfolding Client.on_read
  on_read-P ops (Client.ReadResult.closed_by_server code reason) c h =
      finish_or c.finished code _ c (c, []) (quiet-P c c [] tt (same c) h) h
  on_read-P ops (Client.ReadResult.lost why) c h =
      if_either (P c) c.finished (λ _. quiet-P c c [] tt (same c) h)
        λ _. finish_or c.closing 0 _ c _ (finish-P c.close_code c.close_reason c h) h
  on_read-P ops (Client.ReadResult.received payload text) c h =
      let call =
        Client.if_set (not text && c.has_on_message) (
          Client.◌andthen◌ (c, Client.Action.calls_on_message payload ∷ []) (Client.act_all ops)) in
      if_either (P c) c.finished (λ _. quiet-P c c [] tt (same c) h)
        λ _.
          andthen-P c (Client.◌andthen◌ (c, Client.Action.resets_silence ∷ []) call) Client.read_on
            (andthen-P c (c, Client.Action.resets_silence ∷ []) call
              (quiet-P c c (Client.Action.resets_silence ∷ []) tt (same c) h)
              (callback (not text && c.has_on_message) ops (Client.Action.calls_on_message payload)
                c tt))
            (λ k.
              if_either (P (call c).0) (not (call c).0.finished)
                (λ _.
                  quiet-P (call c).0 (call c).0 (Client.Action.async_reads ∷ []) tt
                    (same (call c).0) k)
                (λ _. quiet-P (call c).0 (call c).0 [] tt (same (call c).0) k))

  on_write-P :
      (result : Client.Result) (c : Client.Client) → Writes c → I c → P c (Client.on_write result c)
  unfolding Client.on_write
  on_write-P (Client.Result.failed why) c w h =
      if_either (P c) c.finished (λ done. cleared-P c done h)
        (λ live. failed-P (codes "could not send: " ++ why) c live h)
  on_write-P Client.Result.succeeded c w h =
      let c' : Client.Client = record c {
        writing = false;
        write_queue = Client.rest_of c.write_queue;
      } in
      if_either (P c) c.finished (λ done. cleared-P c done h)
        (λ live. andthen-P c (c', []) Client.do_write (popped-P c live w h) (do_write-P c'))

  step-P :
      (e : Client.Event) (c : Client.Client) → EventFits Writes e c → I c → P c (Client.step e c)
  unfolding Client.step Client.open_url Client.act Client.on_resolve Client.on_connect
      Client.on_tls_handshake Client.on_handshake Client.on_ping_timer Client.on_silence_timer
  step-P (Client.Event.opens none) c fits h =
      quiet-P c c (Client.Action.posts_finish ∷ []) tt (same c) h
  step-P (Client.Event.opens (some use_tls)) c fits h =
      quiet-P c (record c { use_tls = use_tls }) (Client.Action.async_resolves ∷ []) tt
        (record { queue = refl; writing = refl; finished = refl; callback = refl }) h
  step-P Client.Event.posted c fits h = finish-P 0 _ c h
  step-P (Client.Event.acts (Client.Op.sends payload)) c fits h = queue-P payload false c h
  step-P (Client.Event.acts (Client.Op.closes code reason)) c fits h = close-P code reason c h
  step-P (Client.Event.resolved (Client.Result.failed why)) c fits h =
      finish_or c.finished 0 _ c (c, []) (quiet-P c c [] tt (same c) h) h
  step-P (Client.Event.resolved Client.Result.succeeded) c fits h = asks c.finished c _ tt h
  step-P (Client.Event.tls_handshaken (Client.Result.failed why)) c fits h =
      finish_or c.finished 0 _ c (c, []) (quiet-P c c [] tt (same c) h) h
  step-P (Client.Event.tls_handshaken Client.Result.succeeded) c fits h = asks c.finished c _ tt h
  step-P (Client.Event.wrote result) c fits h = on_write-P result c fits h
  step-P (Client.Event.connected sni (Client.Result.failed why)) c fits h =
      finish_or c.finished 0 _ c (c, []) (quiet-P c c [] tt (same c) h) h
  step-P (Client.Event.connected sni Client.Result.succeeded) c fits h =
      let Q = P c in
      if_either Q c.finished (λ _. quiet-P c c [] tt (same c) h)
        λ _.
          if_either Q (not c.use_tls)
            (λ _. quiet-P c c (Client.Action.async_handshakes ∷ []) tt (same c) h)
            λ _.
              if_either Q (not sni) (λ _. finish-P 0 _ c h)
                (λ _. quiet-P c c (Client.Action.tls_handshakes ∷ []) tt (same c) h)
  step-P (Client.Event.handshaken ops (Client.Result.failed why)) c fits h =
      finish_or c.finished 0 _ c (c, []) (quiet-P c c [] tt (same c) h) h
  step-P (Client.Event.handshaken ops Client.Result.succeeded) c fits h = on_handshake-P ops c h
  step-P (Client.Event.reads ops result) c fits h = on_read-P ops result c h
  step-P Client.Event.close_done c fits h = finish-P c.close_code c.close_reason c h
  step-P Client.Event.ping_due c fits h =
      if_either (P c) (c.finished || c.closing) (λ _. quiet-P c c [] tt (same c) h)
        λ _.
          andthen-P c (Client.queue (codes "ping") true c)
            (λ c'. (c', Client.Action.schedules_ping ∷ [])) (queue-P (codes "ping") true c h)
            (quiet-P (Client.queue (codes "ping") true c).0 (Client.queue (codes "ping") true c).0
              (Client.Action.schedules_ping ∷ []) tt (same (Client.queue (codes "ping") true c).0))
  step-P Client.Event.silence_due c fits h =
      finish_or c.finished 0 _ c (c, []) (quiet-P c c [] tt (same c) h) h

  pub run-P :
      (es : List Client.Event) (c : Client.Client)
      → AllFit Writes es c
      → I c
      → P c (Client.run es c)
  unfolding Client.run
  run-P [] c fits h = quiet-P c c [] tt (same c) h
  run-P (e ∷ es) c fits h =
      andthen-P c (Client.step e c) (Client.run es) (step-P e c fits.0 h)
        (run-P es (Client.step e c).0 fits.1)
