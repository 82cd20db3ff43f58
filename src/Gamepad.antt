-- ===== src/Gamepad.antt =====
-- src/ipc/gamepad_endpoint.cpp: browser gamepads, published as snapshots on a socket. Floats, the
-- protobuf report and the JSON writer are parameters, `Libraries`. Times are nanoseconds of
-- `steady_clock`. `std::map` iterates in key order and the lists here in theirs, which no statement
-- depends on.
pub mod Buttons
pub mod Sending
mod Tests
use pi_webrtc.Prelude.{
  ℕ, zero, suc, ◌+◌, ◌-◌, ◌*◌, ◌/◌, ◌%◌, ◌^◌, String, Bytes, Bool, true, false, not, ◌||◌, Option,
  none, some, List, [], ◌∷◌, ◌++◌, ltb, eqb, if◌then◌else◌, string_eq, map,
}
use pi_webrtc.Prelude.Dict.{lookup, insert, erase}
use pi_webrtc.Socket.{Kernel, Server, publish_latest}

-- The fields of `protocol::InputReport` that are read. An unset float is zero.
pub record Pad (F : Type 0) : Type 0 where
  pub left_x : F
  pub left_y : F
  pub right_x : F
  pub right_y : F
  pub left_trigger : F
  pub right_trigger : F
  pub buttons : ℕ
  pub standard_mapping : Bool

pub record Timestamp : Type 0 where
  pub monotonic_ns : ℕ
  pub unix_ns : Option ℕ

pub record InputReport (F : Type 0) : Type 0 where
  pub sequence : ℕ
  pub timestamp : Option Timestamp
  pub gamepad : Option (Pad F)

-- The JSON object of a gamepad, by its keys in order.
pub record PadState (D : Type 0) : Type 0 where
  pub sequence : ℕ
  pub timestamp : Option Timestamp
  pub left_x : D
  pub left_y : D
  pub right_x : D
  pub right_y : D
  pub left_trigger : D
  pub right_trigger : D
  pub buttons : ℕ
  pub pressed : List String
  pub standard_mapping : Bool

pub record Snapshot (D : Type 0) : Type 0 where
  pub device_monotonic_ns : ℕ
  pub gamepads : List (String × PadState D)

-- `F` is `float` and `D` is `double`. `shortest` prints a float by `std::to_chars` and reads the text
-- by `std::from_chars`.
pub record Libraries : Type 1 where
  pub F : Type 0
  pub D : Type 0
  pub is_finite : F → Bool
  pub equals_zero : F → Bool
  pub lt : F → F → Bool
  pub minus_one : F
  pub nought : F
  pub one : F
  pub shortest : F → D
  pub read_report : Bytes → Option (InputReport F)
  pub dump : Snapshot D → Bytes

abbrev pub timeout : ℕ
timeout = 500 * 1_000_000

abbrev pub button_names : List String
button_names =
    "a" ∷ "b" ∷ "x" ∷ "y" ∷ "lb" ∷ "rb" ∷ "lt" ∷ "rt" ∷ "back" ∷ "start" ∷ "l3" ∷ "r3" ∷ "dpad_up"
    ∷ "dpad_down" ∷ "dpad_left" ∷ "dpad_right" ∷ "guide" ∷ []

-- The loop over the buttons from a bit on.
unfoldable pub pressed_from : ℕ → List String → ℕ → List String
pressed_from bit [] buttons = []
pressed_from bit (name ∷ names) buttons =
    if eqb (buttons / 2 ^ bit % 2) 1
    then name ∷ pressed_from (suc bit) names buttons
    else pressed_from (suc bit) names buttons

module _ (L : Libraries) where
  -- `std::clamp`.
  pub clamp : L.F → L.F → L.F → L.F
  clamp value lo hi = if L.lt value lo then lo else if L.lt hi value then hi else value

  pub clamp_for_json : L.F → L.F → L.F → L.D
  unfolding clamp
  clamp_for_json value lo hi =
      let value' = if not (L.is_finite value) || L.equals_zero value then L.nought else value in
      L.shortest (clamp value' lo hi)

  pub to_json : InputReport L.F → Pad L.F → PadState L.D
  unfolding clamp_for_json pressed_from
  to_json report pad = record {
    sequence = report.sequence;
    timestamp = report.timestamp;
    left_x = clamp_for_json pad.left_x L.minus_one L.one;
    left_y = clamp_for_json pad.left_y L.minus_one L.one;
    right_x = clamp_for_json pad.right_x L.minus_one L.one;
    right_y = clamp_for_json pad.right_y L.minus_one L.one;
    left_trigger = clamp_for_json pad.left_trigger L.nought L.one;
    right_trigger = clamp_for_json pad.right_trigger L.nought L.one;
    buttons = pad.buttons;
    pressed = pressed_from 0 button_names pad.buttons;
    standard_mapping = pad.standard_mapping;
  }

  pub record Gamepad : Type 0 where
    pub state : PadState L.D
    pub last_received : ℕ

  pub record GamepadEndpoint : Type 0 where
    pub server : Server
    pub gamepads : List (String × Gamepad)

  pub prune : ℕ → List (String × Gamepad) → List (String × Gamepad)
  prune now [] = []
  prune now ((id, g) ∷ gs) =
      if ltb timeout (now - g.last_received) then prune now gs else (id, g) ∷ prune now gs

  -- The line that `PublishLocked` hands to the server.
  pub snapshot_line : ℕ → List (String × Gamepad) → Bytes
  snapshot_line now gamepads =
      L.dump (record {
        device_monotonic_ns = now;
        gamepads = map (λ entry. (entry.0, (entry.1).state)) gamepads;
      })
      ++ b'\n' ∷ []

  module _ (K : Kernel) where
    pub publish : ℕ → GamepadEndpoint → K.State → K.State × GamepadEndpoint × List ℕ
    unfolding snapshot_line
    publish now e k =
        let (k', server, stale) = publish_latest K (snapshot_line now e.gamepads) e.server k in
        (k', record e { server = server }, stale)

    -- `Write` behind its test of the report.
    store :
        ℕ
        → String
        → InputReport L.F
        → Pad L.F
        → GamepadEndpoint
        → K.State
        → K.State × GamepadEndpoint × List ℕ
    unfolding publish prune to_json
    store now remote_id report pad e k =
        let entry : Gamepad = record { state = to_json report pad; last_received = now } in
        publish now (record e { gamepads = prune now (insert remote_id entry e.gamepads) }) k

    pub write : ℕ → String → Bytes → GamepadEndpoint → K.State → K.State × GamepadEndpoint × List ℕ
    unfolding store
    write now remote_id payload e k = elim (L.read_report payload) [
      | none ↦ (k, e, [])
      | some report ↦ elim report.gamepad [
        | none ↦ (k, e, [])
        | some pad ↦ store now remote_id report pad e k
      ]
    ]

    pub on_remote_closed :
        ℕ → String → GamepadEndpoint → K.State → K.State × GamepadEndpoint × List ℕ
    unfolding publish prune
    on_remote_closed now remote_id e k = elim (lookup remote_id e.gamepads) [
      | none ↦ (k, e, [])
      | some gamepad ↦
          publish now (record e { gamepads = prune now (erase remote_id e.gamepads) }) k
    ]
