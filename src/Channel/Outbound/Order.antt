-- ===== src/Channel/Outbound/Order.antt =====
-- What reaches the wire: the accepted messages in their order, and how the send thread ends.
use pi_webrtc.Prelude.{
  ℕ, zero, suc, ◌+◌, All, ◌≤◌, ◌≡◌, refl, sym, ap, ◌∙◌, ◌⊎◌, Bytes, true, List, [], ◌∷◌, ◌++◌,
  length, append_assoc, append-nil, is_empty, if◌then◌else◌, arith,
}
use pi_webrtc.Channel.Framing.{Codec, encode}
use pi_webrtc.Channel.Outbound.{
  RtcChannel, Phase, waiting, holding, checked, returned, Observation, send_bytes, loop_step,
  stop_send_thread,
}

-- What happens to a channel: another thread sends or stops, or the send thread takes a step.
pub data Event : Type 0 where
  sends : Bytes → Event
  loops : Observation → Event
  stops : Event

-- The channel, the framed messages that were queued, and those that the loop gave up.
pub record Trace : Type 0 where
  pub channel : RtcChannel
  pub queued : List Bytes
  pub dropped : List Bytes

abbrev pub held : Phase → List Bytes
held waiting = []
held (holding buf) = buf ∷ []
held (checked buf) = buf ∷ []
held returned = []

abbrev pub queued_message : Bytes → List Bytes
queued_message [] = []
queued_message (b ∷ bs) = (b ∷ bs) ∷ []

-- What a step gives up: the message in hand, if the loop returns with one.
abbrev pub given_up : Phase → Phase → List Bytes
given_up (checked buf) returned = buf ∷ []
given_up _ _ = []

module _ (k : Codec) where
  unfoldable pub step : Trace → Event → Trace
  step t (sends bytes) = record t {
    channel = send_bytes k bytes t.channel;
    queued = t.queued ++ queued_message (encode k t.channel.framing bytes);
  }
  step t (loops o) =
      let c = loop_step o t.channel in
      record t { channel = c; dropped = t.dropped ++ given_up t.channel.phase c.phase }
  step t stops = record t { channel = stop_send_thread t.channel }

  unfoldable pub run : Trace → List Event → Trace
  run t [] = t
  run t (e ∷ es) = run (step t e) es

-- What is on the wire, followed by what the loop gave up, has in hand and left queued, is what was
-- queued; and only a loop that has returned gave anything up.
abbrev pub IsOrdered : Trace → Type 0
IsOrdered t =
    (t.channel.wire ++ (t.dropped ++ (held t.channel.phase ++ t.channel.send_queue)) ≡ t.queued)
    × ((t.dropped ≡ []) ⊎ (t.channel.phase ≡ returned))

append_end :
    (a b c q : List Bytes) (x : List Bytes)
    → a ++ (b ++ (c ++ (q ++ x))) ≡ (a ++ (b ++ (c ++ q))) ++ x
append_end a b c q x = simp append_assoc

module _ (k : Codec) where
  send_bytes-queue :
      (bytes : Bytes) (c : RtcChannel)
      → send_bytes k bytes c
        ≡ record c { send_queue = c.send_queue ++ queued_message (encode k c.framing bytes) }
  unfolding send_bytes
  send_bytes-queue bytes c = go (encode k c.framing bytes)
    where
      go :
          (framed : Bytes)
          → (if is_empty framed then c else record c { send_queue = c.send_queue ++ framed ∷ [] })
            ≡ record c { send_queue = c.send_queue ++ queued_message framed }
      go [] = ap (λ (q : List Bytes). record c { send_queue = q }) (sym (append-nil c.send_queue))
      go (b ∷ bs) = refl

  sends-IsOrdered : (t : Trace) (bytes : Bytes) → IsOrdered t → IsOrdered (step k t (sends bytes))
  unfolding step
  sends-IsOrdered t bytes (all, live) = rw (send_bytes-queue bytes t.channel) (
    append_end t.channel.wire t.dropped (held t.channel.phase) t.channel.send_queue
          (queued_message (encode k t.channel.framing bytes))
        ∙ ap (λ (q : List Bytes). q ++ queued_message (encode k t.channel.framing bytes)) all,
    live,
  )

  waiting-IsOrdered :
      (q : List Bytes) (t : Trace) (o : Observation)
      → t.channel.send_queue ≡ q
      → t.channel.phase ≡ waiting
      → IsOrdered t
      → IsOrdered (step k t (loops o))
  unfolding step loop_step
  waiting-IsOrdered [] t o e p (all, live) = ground (arith, append-nil t.dropped)
  waiting-IsOrdered (buf ∷ rest) t o e p (all, live) = ground (arith, append-nil t.dropped)

  loops-IsOrdered :
      (p : Phase) (t : Trace) (o : Observation)
      → t.channel.phase ≡ p
      → IsOrdered t
      → IsOrdered (step k t (loops o))
  unfolding step loop_step
  loops-IsOrdered waiting t o e h = waiting-IsOrdered t.channel.send_queue t o refl e h
  loops-IsOrdered (holding buf) t o e (all, live) = ground arith
  loops-IsOrdered (checked buf) t o e (all, live) =
      ground (arith, append_assoc t.channel.wire (buf ∷ []) t.channel.send_queue)
  loops-IsOrdered returned t o e (all, live) = ground (arith, append-nil t.dropped)

  step-IsOrdered : (t : Trace) (e : Event) → IsOrdered t → IsOrdered (step k t e)
  unfolding step stop_send_thread
  step-IsOrdered t (sends bytes) h = sends-IsOrdered t bytes h
  step-IsOrdered t (loops o) h = loops-IsOrdered t.channel.phase t o refl h
  step-IsOrdered t stops h = h

  -- However sends, stops and steps of the send thread interleave, and whatever webrtc's
  -- channel shows to each step, if it held before: the wire holds the queued messages in the
  -- order of their queueing; behind them stand what the loop gave up, what it has in hand and
  -- the queue; and only a loop that has returned gave anything up.
  pub run-IsOrdered : (t : Trace) (es : List Event) → IsOrdered t → IsOrdered (run k t es)
  unfolding run
  run-IsOrdered t [] h = h
  run-IsOrdered t (e ∷ es) h = run-IsOrdered (step k t e) es (step-IsOrdered t e h)

-- Once the send thread is told to stop, three steps bring it to its return, so that the join ends,
-- whatever it was doing and whatever webrtc's channel shows.
pub stop_send_thread-returns :
    (c : RtcChannel) (o o' o'' : Observation)
    → (loop_step o'' (loop_step o' (loop_step o (stop_send_thread c)))).phase ≡ returned
unfolding loop_step stop_send_thread
stop_send_thread-returns c o o' o'' = go c.phase c.send_queue refl refl
  where
    go :
        (p : Phase) (q : List Bytes)
        → c.phase ≡ p
        → c.send_queue ≡ q
        → (loop_step o'' (loop_step o' (loop_step o (stop_send_thread c)))).phase ≡ returned
    go waiting [] e f = ground arith
    go waiting (buf ∷ q) e f = ground arith
    go (holding buf) q e f = ground arith
    go (checked buf) q e f = ground arith
    go returned q e f = ground arith

-- Rounds of three steps each, at one observation.
pub loop_rounds : ℕ → Observation → RtcChannel → RtcChannel
loop_rounds zero o c = c
loop_rounds (suc n) o c = loop_rounds n o (loop_step o (loop_step o (loop_step o c)))

abbrev pub Fits : Observation → Bytes → Type 0
Fits o buf = o.buffered_amount + length buf ≤ o.max_send_queue_size

three_steps :
    (o : Observation) (c : RtcChannel) (buf : Bytes) (rest : List Bytes)
    → c.phase ≡ waiting
    → c.send_thread_running ≡ true
    → c.send_queue ≡ buf ∷ rest
    → o.is_open ≡ true
    → Fits o buf
    → loop_step o (loop_step o (loop_step o c))
      ≡ record c { send_queue = rest; wire = c.wire ++ buf ∷ [] }
unfolding loop_step
three_steps o c buf rest w r q op fits = ground arith

-- While the channel runs and webrtc's is open with room for each message, three steps of a waiting
-- loop for each message send everything queued, in order, and leave the queue empty.
pub loop_rounds-drain :
    (q : List Bytes) (o : Observation) (c : RtcChannel)
    → c.phase ≡ waiting
    → c.send_thread_running ≡ true
    → c.send_queue ≡ q
    → o.is_open ≡ true
    → All (Fits o) q
    → loop_rounds (length q) o c ≡ record c { send_queue = []; wire = c.wire ++ q }
unfolding loop_rounds
loop_rounds-drain [] o c w r e op fits = ground (arith, append-nil c.wire)
loop_rounds-drain (buf ∷ q) o c w r e op fits =
    ap (loop_rounds (length q) o) (three_steps o c buf q w r e op fits.0)
    ∙ loop_rounds-drain q o (record c { send_queue = q; wire = c.wire ++ buf ∷ [] }) w r refl op
        fits.1
    ∙ ap (λ (x : List Bytes). record c { send_queue = []; wire = x })
        (append_assoc c.wire (buf ∷ []) q)
