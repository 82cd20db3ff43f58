-- ===== src/Channel/Command.antt =====
-- src/rtc/datachannel/command_channel.cpp: requests to their handlers. Handlers are numbers; the calls
-- that `OnPacket` makes, each with its context, are its result.
mod Dispatch
mod Tests
use pi_webrtc.Prelude.{ℕ, String, Bytes, Option, none, some, List, [], ◌∷◌, ◌++◌, map, nat_eq}
use pi_webrtc.Prelude.Dict.{lookup, insert}
use pi_webrtc.Channel.Role.{command}
use pi_webrtc.Channel.Packet.{Packet, Body, request, response}
use pi_webrtc.Channel.Framing.{Codec}
use pi_webrtc.Channel.Outbound.{RtcChannel}
use pi_webrtc.Channel.Outbound

-- `stream` is the weak pointer to the stream channel, by number, while that channel lives.
pub record CommandChannel : Type 0 where
  pub channel : RtcChannel
  pub stream : Option ℕ
  pub handlers : List (ℕ × List ℕ)

pub record Context : Type 0 where
  pub packet : Packet
  pub payload : Bytes
  pub request_id : String
  pub stream : Option ℕ

pub set_stream_channel : Option ℕ → CommandChannel → CommandChannel
set_stream_channel stream c = record c { stream = stream }

-- `handlers_[request_case]`, which makes an empty list where there is none.
abbrev pub handlers_of : Option (List ℕ) → List ℕ
handlers_of none = []
handlers_of (some hs) = hs

pub register_handler : ℕ → ℕ → CommandChannel → CommandChannel
register_handler request_case func c = record c {
  handlers =
      insert request_case (handlers_of (lookup request_case c.handlers) ++ func ∷ []) c.handlers;
}

-- A handler's call: the handler and what it is given.
abbrev pub call_of : Packet → Bytes → Option ℕ → ℕ → ℕ × Context
call_of packet payload stream handler = (
  handler,
  record { packet = packet; payload = payload; request_id = packet.request_id; stream = stream },
)

dispatch : Packet → Body → CommandChannel → List (ℕ × Context)
dispatch packet (request payload_case payload) c = elim (lookup payload_case c.handlers) [
  | none ↦ []
  | some handlers ↦ map (call_of packet payload c.stream) handlers
]
dispatch packet _ c = []

pub on_packet : Packet → CommandChannel → List (ℕ × Context)
unfolding dispatch
on_packet packet c = dispatch packet packet.body c

pub send : Codec → String → Bytes → CommandChannel → CommandChannel
send k request_id bytes c = record c {
  channel = Outbound.send k (record { request_id = request_id; body = response bytes }) c.channel;
}
