-- ===== src/Registry.antt =====
-- src/ipc/endpoint_registry.cpp, ipc_endpoint.cpp and the dispatch of src/ipc/unix_socket_endpoint.h:
-- the endpoints by their names. A subclass of `UnixSocketEndpoint` is a constructor.
mod Dispatch
mod Tests
use pi_webrtc.Prelude.{
  ℕ, String, Bytes, Bool, true, false, Option, none, some, List, [], ◌∷◌, ◌++◌, string_eq,
}
use pi_webrtc.Prelude.Dict.{lookup, insert}
use pi_webrtc.Socket.{
  Kernel, Server, StartResult, register_message_callback, unregister_message_callback, start, stop,
}
use pi_webrtc.Socket
use pi_webrtc.Gamepad.{Libraries, GamepadEndpoint}
use pi_webrtc.Gamepad
use pi_webrtc.Channel.Ipc.{Endpoints}

pub data Endpoint (L : Libraries) : Type 0 where
  ipc_endpoint : Server → Endpoint L
  gamepad_endpoint : GamepadEndpoint L → Endpoint L

module _ (L : Libraries) where
  pub name : Endpoint L → String
  name (ipc_endpoint s) = ""
  name (gamepad_endpoint e) = "gamepad"

  abbrev pub Registry : Type 0
  Registry = List (String × Endpoint L)

  -- `Add`; a null pointer is `none`.
  pub add : Option (Endpoint L) → Registry → Registry
  unfolding name
  add none r = r
  add (some e) r = insert (name e) e r

  pub register_message_callbacks : String → ℕ → Registry → Registry
  register_message_callbacks id callback [] = []
  register_message_callbacks id callback ((n, ipc_endpoint s) ∷ r) =
      (n, ipc_endpoint (register_message_callback id callback s))
      ∷ register_message_callbacks id callback r
  register_message_callbacks id callback ((n, gamepad_endpoint e) ∷ r) =
      (n, gamepad_endpoint e) ∷ register_message_callbacks id callback r

  pub unregister_message_callbacks : String → Registry → Registry
  unregister_message_callbacks id [] = []
  unregister_message_callbacks id ((n, ipc_endpoint s) ∷ r) =
      (n, ipc_endpoint (unregister_message_callback id s)) ∷ unregister_message_callbacks id r
  unregister_message_callbacks id ((n, gamepad_endpoint e) ∷ r) =
      (n, gamepad_endpoint e) ∷ unregister_message_callbacks id r

  module _ (K : Kernel) (now : ℕ) where
    -- `Write` of an endpoint. The sockets that it shuts down are left out.
    pub endpoint_write : String → Bytes → Endpoint L → K.State → K.State × Endpoint L
    endpoint_write remote_id payload (ipc_endpoint s) k =
        let (k', s', stale) = Socket.write K payload s k in (k', ipc_endpoint s')
    endpoint_write remote_id payload (gamepad_endpoint e) k =
        let (k', e', stale) = Gamepad.write L K now remote_id payload e k in
        (k', gamepad_endpoint e')

    pub endpoint_closed : String → Endpoint L → K.State → K.State × Endpoint L
    endpoint_closed remote_id (ipc_endpoint s) k = (k, ipc_endpoint s)
    endpoint_closed remote_id (gamepad_endpoint e) k =
        let (k', e', stale) = Gamepad.on_remote_closed L K now remote_id e k in
        (k', gamepad_endpoint e')

    -- `Write`: whether there is an endpoint of that name.
    pub write : String → String → Bytes → Registry × K.State → (Registry × K.State) × Bool
    unfolding endpoint_write
    write n remote_id payload (r, k) = elim (lookup n r) [
      | none ↦ ((r, k), false)
      | some e ↦ let (k', e') = endpoint_write remote_id payload e k in ((insert n e' r, k'), true)
    ]

    pub close_all : String → Registry → K.State → Registry × K.State
    unfolding endpoint_closed
    close_all remote_id [] k = ([], k)
    close_all remote_id ((n, e) ∷ r) k =
        let (k', e') = endpoint_closed remote_id e k in
        let (r', k'') = close_all remote_id r k' in ((n, e') ∷ r', k'')

    pub on_remote_closed : String → Registry × K.State → Registry × K.State
    unfolding close_all
    on_remote_closed remote_id (r, k) = close_all remote_id r k

    -- The registry as the channels use it.
    pub registry_endpoints : Endpoints
    registry_endpoints = record {
      State = Registry × K.State;
      write = write;
      on_remote_closed = on_remote_closed;
    }

    -- `Start` of an endpoint, on the descriptor and the results of its system calls.
    pub endpoint_start : ℕ → StartResult → Endpoint L → K.State → K.State × Endpoint L
    endpoint_start fd result (ipc_endpoint s) k = (k, ipc_endpoint (start fd result s).0)
    endpoint_start fd result (gamepad_endpoint e) k =
        let (k', e', stale) = Gamepad.publish L K now e k in
        (k', gamepad_endpoint (record e' { server = (start fd result e'.server).0 }))

    -- `StartAll`, on what each endpoint's system calls give.
    pub start_all : (String → ℕ × StartResult) → Registry → K.State → K.State × Registry
    unfolding endpoint_start
    start_all calls [] k = (k, [])
    start_all calls ((n, e) ∷ r) k =
        let (fd, result) = calls n in
        let (k', e') = endpoint_start fd result e k in
        let (k'', r') = start_all calls r k' in (k'', (n, e') ∷ r')

  pub endpoint_stop : Endpoint L → Endpoint L
  endpoint_stop (ipc_endpoint s) = ipc_endpoint (stop s).0
  endpoint_stop (gamepad_endpoint e) = gamepad_endpoint (record e { server = (stop e.server).0 })

  pub stop_all : Registry → Registry
  unfolding endpoint_stop
  stop_all [] = []
  stop_all ((n, e) ∷ r) = (n, endpoint_stop e) ∷ stop_all r
