-- ===== src/Gamepad/Tests.antt =====
-- A gamepad endpoint over numbers for floats, where 5 is nought, 4 is minus one and 6 is one.
use pi_webrtc.Prelude.{
  ℕ, ◌≡◌, refl, String, Bytes, true, none, some, List, [], ◌∷◌, eqb, ltb, if◌then◌else◌, ◌==◌,
  string_eq, nat_eq, arith,
}
use pi_webrtc.Prelude.Dict.{lookup, Distinct}
use pi_webrtc.Socket
use pi_webrtc.Socket.Loopback.{kernel, laws}
use pi_webrtc.Socket.Publish.{IsPublished}
use pi_webrtc.Gamepad.{
  Libraries, InputReport, Pad, PadState, Gamepad, GamepadEndpoint, to_json, snapshot_line, write,
}
use pi_webrtc.Gamepad.Buttons.{FloatLaws}
use pi_webrtc.Gamepad.Sending.{still_sending, write-sending}

abbrev pad : Pad ℕ
pad = record {
  left_x = 2;
  left_y = 5;
  right_x = 9;
  right_y = 6;
  left_trigger = 1;
  right_trigger = 6;
  buttons = 5;
  standard_mapping = true;
}

abbrev report : InputReport ℕ
report = record { sequence = 3; timestamp = none; gamepad = some pad }

abbrev listed : List (String × PadState ℕ) → Bytes
listed [] = []
listed ((id, state) ∷ rest) = state.sequence ∷ listed rest

abbrev libraries : Libraries
libraries = record {
  F = ℕ;
  D = ℕ;
  is_finite = λ f. ltb f 100;
  equals_zero = λ f. eqb f 5;
  lt = ltb;
  minus_one = 4;
  nought = 5;
  one = 6;
  shortest = λ f. f;
  read_report = λ s. some report;
  dump = λ s. listed s.gamepads;
}

float_laws : FloatLaws libraries
float_laws = record {
  irreflexive = λ x. ground arith;
  nought_le_one = refl;
  minus_one_le_one = refl;
}

abbrev old_pad : Gamepad libraries
old_pad = record { state = to_json libraries report pad; last_received = 7 }

-- A client that holds nothing unread.
abbrev endpoint : GamepadEndpoint libraries
endpoint = record {
  server = record Socket.create {
    clients = (4, record { joinable = true; sent_version = 0 }) ∷ [];
  };
  gamepads = ("old", old_pad) ∷ [];
}

abbrev silent : ℕ → Bytes
silent fd = []

abbrev now : ℕ
now = 600_000_000

-- The old gamepad has been silent for too long.
write-sending_example :
    let (k', e', stale) = write libraries kernel now "new" (1 ∷ []) endpoint silent in
    ((id : String)
      → lookup id e'.gamepads ≡ (
          if "new" == id
          then some (record { state = to_json libraries report pad; last_received = now })
          else still_sending libraries now (lookup id endpoint.gamepads)))
    × Distinct e'.gamepads
    × IsPublished kernel
        (snapshot_line libraries now e'.gamepads)
        endpoint.server
        silent
        4
        (k', e'.server, stale)
write-sending_example =
    write-sending libraries kernel laws now "new" (1 ∷ []) report pad endpoint silent 4 (refl, tt)
      (refl, tt) refl refl
