-- ===== src/Channel/Command/Tests.antt =====
-- A command channel with three registrations.
use pi_webrtc.Prelude.{List, [], ◌∷◌, some, ℕ}
use pi_webrtc.Channel.Role.{command}
use pi_webrtc.Channel.Packet.{Packet, request}
use pi_webrtc.Channel.Framing.{plain}
use pi_webrtc.Channel.Outbound
use pi_webrtc.Channel.Command.{CommandChannel}

abbrev channel : CommandChannel
channel = record {
  channel = Outbound.create command "c" "command" (plain "remote");
  stream = some 1;
  handlers = [];
}

abbrev registrations : List (ℕ × ℕ)
registrations = (4, 10) ∷ (5, 20) ∷ (4, 30) ∷ []

abbrev asked : Packet
asked = record { request_id = "q"; body = request 4 (7 ∷ []) }
