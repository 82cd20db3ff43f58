-- ===== src/Channel/Outbound/Tests.antt =====
-- A channel over a codec that writes each message as a string of bytes.
use pi_webrtc.Prelude.{
  ◌≡◌, refl, ◌⊎◌, inl, String, Bytes, true, Option, none, some, List, [], ◌∷◌, ◌++◌, arith, ◌==◌,
  ==_iff, string_eq, if◌then◌else◌, ap,
}
use pi_webrtc.Channel.Role.{stream}
use pi_webrtc.Channel.Packet.{Packet, Body, raw}
use pi_webrtc.Channel.Framing.{Codec, CodecLaws, DataPacket, UserPacket, live_kit, encode}
use pi_webrtc.Channel.Outbound.{
  RtcChannel, Observation, holding, create, send_bytes, send, on_message, loop_step,
  stop_send_thread,
}
use pi_webrtc.Channel.Outbound.Order.{
  Trace, Event, sends, loops, stops, step, run, IsOrdered, run-IsOrdered, loop_rounds,
  loop_rounds-drain,
}
use pi_webrtc.Channel.Outbound.Transport.{live_kit_ends, on_message-send}

-- It writes the user packets of one topic, with no identity, and the packets of raw bytes with no
-- request id.
written_user : Option UserPacket → String → Option Bytes
written_user none identity = none
written_user (some user) identity =
    if user.topic == "t" then (if identity == "" then some (1 ∷ user.payload) else none) else none

read_user : Bytes → Option DataPacket
read_user [] = none
read_user (b ∷ bytes) =
    some
      (record { user = some (record { payload = bytes; topic = "t" }); participant_identity = "" })

written_body : String → Body → Option Bytes
written_body id (raw bytes) = if id == "" then some bytes else none
written_body id _ = none

abbrev codec : Codec
unfolding written_user read_user written_body
codec = record {
  write_data_packet = λ p. written_user p.user p.participant_identity;
  read_data_packet = read_user;
  write_packet = λ p. written_body p.request_id p.body;
  read_packet = λ s. some (record { request_id = ""; body = raw s });
}

read_user-written_user :
    (u : Option UserPacket) (id : String) (s : Bytes)
    → written_user u id ≡ some s
    → read_user s ≡ some (record { user = u; participant_identity = id })
unfolding written_user read_user
read_user-written_user none id s h = cc
read_user-written_user (some user) id [] h = ground arith
read_user-written_user (some user) id (b ∷ bs) h =
    ground (arith, ==_iff user.topic "t", ==_iff id "")

written_body-raw :
    (id : String) (body : Body) (s : Bytes)
    → written_body id body ≡ some s
    → ◌≡◌ {A = Packet}
        (record { request_id = ""; body = raw s })
        (record { request_id = id; body = body })
unfolding written_body
written_body-raw id (raw bytes) s h = ground (arith, ==_iff id "")
written_body-raw id _ s h = cc

codec_laws : CodecLaws codec
unfolding written_user read_user written_body
codec_laws = record {
  read_data_packet-write = λ p s h. read_user-written_user p.user p.participant_identity s h;
  read_packet-write = λ p s h. ap some (written_body-raw p.request_id p.body s h);
}

abbrev channel : RtcChannel
channel = create stream "c" "stream" (live_kit "t")

abbrev packet : Packet
packet = record { request_id = ""; body = raw (7 ∷ []) }

on_message-send_example :
    ((encode codec (live_kit "t") (7 ∷ []) ≡ []) × (send codec packet channel ≡ channel))
    ⊎ ((m : Bytes) × (send codec packet channel
          ≡ record channel { send_queue = channel.send_queue ++ m ∷ [] })
        × (on_message codec m channel ≡ some (packet, "")))
unfolding create written_body codec
on_message-send_example =
    on_message-send codec codec_laws "" packet (7 ∷ []) channel channel (live_kit_ends "t" "t") refl

abbrev roomy : Observation
roomy = record { is_open = true; buffered_amount = 3; max_send_queue_size = 10 }

abbrev full : Observation
full = record { is_open = true; buffered_amount = 10; max_send_queue_size = 10 }

abbrev untouched : Trace
untouched = record { channel = channel; queued = []; dropped = [] }

abbrev history : List Event
history =
    sends (7 ∷ [])
    ∷ sends (8 ∷ [])
    ∷ loops full
    ∷ loops full
    ∷ loops roomy
    ∷ loops roomy
    ∷ loops full
    ∷ stops
    ∷ loops full
    ∷ loops full
    ∷ []

-- The second message is given up at the stop.
run-history : (run codec untouched history).dropped ≡ (1 ∷ 8 ∷ []) ∷ []
unfolding run step create send_bytes loop_step stop_send_thread written_user encode codec
run-history = refl

run-IsOrdered_example : IsOrdered (run codec untouched history)
unfolding create
run-IsOrdered_example = run-IsOrdered codec untouched history (refl, inl refl)

abbrev holding_seven : RtcChannel
holding_seven = record channel { phase = holding (7 ∷ []) }

abbrev queued_two : RtcChannel
queued_two = record channel { send_queue = (7 ∷ []) ∷ (8 ∷ 9 ∷ []) ∷ [] }

loop_rounds-drain_example :
    loop_rounds 2 roomy queued_two
    ≡ record queued_two { send_queue = []; wire = queued_two.wire ++ (7 ∷ []) ∷ (8 ∷ 9 ∷ []) ∷ [] }
unfolding create
loop_rounds-drain_example =
    loop_rounds-drain ((7 ∷ []) ∷ (8 ∷ 9 ∷ []) ∷ []) roomy queued_two refl refl refl refl
      (omega arith, (omega arith, tt))
