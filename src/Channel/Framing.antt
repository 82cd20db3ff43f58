-- ===== src/Channel/Framing.antt =====
-- src/rtc/datachannel/channel_framing.cpp: how a payload is wrapped for the wire. The protobuf
-- messages are generated code, so writing and reading them are parameters, with the laws that
-- protobuf documents in `CodecLaws`.
use pi_webrtc.Prelude.{◌≡◌, String, Bytes, Option, none, some, []}
use pi_webrtc.Channel.Packet.{Packet}

-- `livekit::UserPacket` and `livekit::DataPacket`, as far as they are used.
pub record UserPacket : Type 0 where
  pub payload : Bytes
  pub topic : String

pub record DataPacket : Type 0 where
  pub user : Option UserPacket
  pub participant_identity : String

-- `SerializeToString` and `ParseFromString` of the messages; `none` where they return false.
pub record Codec : Type 0 where
  pub write_data_packet : DataPacket → Option Bytes
  pub read_data_packet : Bytes → Option DataPacket
  pub write_packet : Packet → Option Bytes
  pub read_packet : Bytes → Option Packet

-- What is written reads back.
pub record CodecLaws (k : Codec) : Type 0 where
  pub read_data_packet-write :
      (p : DataPacket) (s : Bytes) → k.write_data_packet p ≡ some s → k.read_data_packet s ≡ some p
  pub read_packet-write :
      (p : Packet) (s : Bytes) → k.write_packet p ≡ some s → k.read_packet s ≡ some p

pub data ChannelFraming : Type 0 where
  plain : (remote_id : String) → ChannelFraming
  live_kit : (topic : String) → ChannelFraming

module _ (k : Codec) where
  abbrev pub serialized : Option Bytes → Bytes
  serialized none = []
  serialized (some s) = s

  -- The bytes for the wire; an empty string drops the message.
  unfoldable pub encode : ChannelFraming → Bytes → Bytes
  encode (plain remote_id) payload = payload
  encode (live_kit topic) payload = serialized (
      k.write_data_packet (record {
        user = some (record { payload = payload; topic = topic });
        participant_identity = "";
      }))

  abbrev pub user_payload : DataPacket → Option (Bytes × String)
  user_payload packet = elim packet.user [
    | none ↦ none
    | some user ↦ some (user.payload, packet.participant_identity)
  ]

  -- The payload and who sent it; `none` where there is nothing to act on.
  unfoldable pub decode : ChannelFraming → Bytes → Option (Bytes × String)
  decode (plain remote_id) buffer = some (buffer, remote_id)
  decode (live_kit topic) buffer = elim (k.read_data_packet buffer) [
    | none ↦ none
    | some packet ↦ user_payload packet
  ]
