-- ===== src/Channel/Packet.antt =====
-- The parts of `protocol::Packet` that the channels read and write. The messages are generated
-- from .proto files outside the repository; what stands here is the view that the code takes.
use pi_webrtc.Prelude.{ℕ, String, Bytes}

pub data StreamPayload : Type 0 where
  header : (total_length : ℕ) (mime_type : String) → StreamPayload
  chunk : (offset : ℕ) (bytes : Bytes) → StreamPayload
  trailer : (reason : String) → StreamPayload
  no_payload : StreamPayload

-- The `request` and `response` bodies carry a payload case, which the command channel reads, and
-- bytes, which it passes on.
pub data Body : Type 0 where
  ipc : (endpoint : String) (sequence : ℕ) (payload : Bytes) → Body
  raw : Bytes → Body
  stream : (stream_id : String) → StreamPayload → Body
  request : (payload_case : ℕ) → Bytes → Body
  response : Bytes → Body
  no_body : Body

pub record Packet : Type 0 where
  pub request_id : String
  pub body : Body
