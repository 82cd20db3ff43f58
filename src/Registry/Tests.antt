-- ===== src/Registry/Tests.antt =====
-- A registry of both endpoints over sockets that take two bytes at a time.
use pi_webrtc.Prelude.{◌≡◌, refl, Bytes, true, false, none, [], ◌∷◌, map, All, ℕ, string_eq}
use pi_webrtc.Socket.{Server}
use pi_webrtc.Socket
use pi_webrtc.Socket.Loopback.{kernel}
use pi_webrtc.Gamepad.{Libraries, GamepadEndpoint, PadState}
use pi_webrtc.Registry.{ipc_endpoint, gamepad_endpoint, Registry, on_remote_closed}
use pi_webrtc.Registry.Dispatch.{HasForgotten, on_remote_closed-HasForgotten}

abbrev libraries : Libraries
libraries = record {
  F = ℕ;
  D = ℕ;
  is_finite = λ f. true;
  equals_zero = λ f. false;
  lt = λ a b. false;
  minus_one = 4;
  nought = 5;
  one = 6;
  shortest = λ f. f;
  read_report = λ s. none;
  dump = λ s. s.device_monotonic_ns ∷ [];
}

abbrev pad_state : PadState ℕ
pad_state = record {
  sequence = 1;
  timestamp = none;
  left_x = 4;
  left_y = 4;
  right_x = 4;
  right_y = 4;
  left_trigger = 5;
  right_trigger = 5;
  buttons = 0;
  pressed = [];
  standard_mapping = true;
}

abbrev server : Server
server = record Socket.create { clients = (4, record { joinable = true; sent_version = 0 }) ∷ [] }

abbrev pads : GamepadEndpoint libraries
pads = record {
  server = server;
  gamepads = ("peer", record { state = pad_state; last_received = 2 }) ∷ [];
}

abbrev registry : Registry libraries
registry = ("", ipc_endpoint server) ∷ ("gamepad", gamepad_endpoint pads) ∷ []

abbrev silent : ℕ → Bytes
silent fd = []

on_remote_closed-HasForgotten_example :
    let r' = (on_remote_closed libraries kernel 5 "peer" (registry, silent)).0 in
    All (λ entry. HasForgotten libraries kernel 5 "peer" entry.1) r'
    × (map (λ entry. entry.0) r' ≡ map (λ entry. entry.0) registry)
on_remote_closed-HasForgotten_example =
    on_remote_closed-HasForgotten libraries kernel 5 "peer" registry silent (tt, ((refl, tt), tt))
