-- ===== src/Channel/Ipc/Tests.antt =====
-- An ipc channel over endpoints that log what they are given.
use mathlib.Core.List.{Permᴰ}
use pi_webrtc.Prelude.{
  ◌<◌, ◌≡◌, refl, String, Bytes, some, List, [], ◌∷◌, ◌++◌, map, length, arith, string_eq, ◌==◌,
}
use pi_webrtc.Prelude.Dict.{erase}
use pi_webrtc.Channel.Role.{lossy}
use pi_webrtc.Channel.Stream.{send_stream, send_stream_header, send_stream_trailer}
use pi_webrtc.Channel.Stream.Chunks.{Chunk, chunk_packet, Tiles, done, next}
use pi_webrtc.Channel.Ipc.{
  Endpoints, Assembly, IpcChannel, accept_sequence, ok, default_endpoint, write_to_endpoint,
}
use pi_webrtc.Channel.Ipc.Delivery.{receive, stream_delivered, send_stream-receive}
use pi_webrtc.Channel.Ipc.Sequence.{Arrival, accept, accept_all, accept_sequence-increasing}

abbrev log_endpoints : Endpoints
log_endpoints = record {
  State = List (String × Bytes);
  write = λ endpoint remote_id payload log. (log ++ (remote_id, payload) ∷ [], endpoint == "");
  on_remote_closed = λ remote_id log. log ++ (remote_id, []) ∷ [];
}

abbrev stored_two : Assembly
stored_two = record { buffer = 8 ∷ 0 ∷ []; received = 1 }

abbrev channel : IpcChannel log_endpoints
channel = record {
  role = lossy;
  endpoints = some [];
  assemblies = ("other", stored_two) ∷ [];
  last_sequence = [];
  remote_ids = [];
}

abbrev body : Bytes
body = 1 ∷ 2 ∷ 3 ∷ []

abbrev in_order : List Chunk
in_order = (0, 1 ∷ 2 ∷ []) ∷ (2, 3 ∷ []) ∷ []

abbrev swapped : List Chunk
swapped = (2, 3 ∷ []) ∷ (0, 1 ∷ 2 ∷ []) ∷ []

in_order-Tiles : Tiles body 0 in_order
in_order-Tiles =
    next 2 (omega arith) (omega arith) (omega arith)
      (next 1 (omega arith) (omega arith) (omega arith) (done refl))

stream_delivered_example :
    receive 5 "peer"
      (send_stream_header "" "s" "text/plain" (length body)
        ∷ (map (chunk_packet "s") swapped ++ send_stream_trailer "s" "" ∷ []))
      channel
    ≡ ok (
        write_to_endpoint default_endpoint "peer" body
          (record channel { assemblies = erase "s" channel.assemblies }))
stream_delivered_example =
    stream_delivered 5 "peer" "s" "" "text/plain" body channel in_order swapped (λ e. cc)
      (omega arith) in_order-Tiles (Permᴰ.swap refl refl)

send_stream-receive_example :
    receive 5 "peer" (send_stream "s" "" "text/plain" body) channel
    ≡ ok (
        write_to_endpoint default_endpoint "peer" body
          (record channel { assemblies = erase "s" channel.assemblies }))
send_stream-receive_example =
    send_stream-receive 5 "peer" "s" "" "text/plain" body channel (λ e. cc) (omega arith)

abbrev first_arrival : Arrival
first_arrival = record {
  now = 2_000_000_000;
  remote_id = "peer";
  endpoint = "gamepad";
  sequence = 4;
}

abbrev late_arrival : Arrival
late_arrival = record {
  now = 2_000_000_100;
  remote_id = "peer";
  endpoint = "gamepad";
  sequence = 3;
}

abbrev next_arrival : Arrival
next_arrival = record {
  now = 2_000_000_200;
  remote_id = "peer";
  endpoint = "gamepad";
  sequence = 7;
}

accept_sequence-increasing_example : first_arrival.sequence < next_arrival.sequence
unfolding accept accept_all accept_sequence
accept_sequence-increasing_example =
    accept_sequence-increasing channel first_arrival (late_arrival ∷ []) next_arrival refl (λ e. cc)
      (λ e. cc) refl refl ((omega arith, omega arith), tt) (omega arith, omega arith) refl refl
