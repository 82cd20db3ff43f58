-- ===== src/WebSocket/Tests.antt =====
-- Runs of the WebSocket client's model, and the theorems at them.
use pi_webrtc.Prelude.{◌≡◌, refl, true, false, some, List, [], ◌∷◌, ◌++◌, codes}
use pi_webrtc.WebSocket.Client
use pi_webrtc.WebSocket.Closing.{close_calls, run-closes_once}
use pi_webrtc.WebSocket.Order.{pending, run-in_order}
use pi_webrtc.WebSocket.Order.Sent.{written, queued}
use pi_webrtc.WebSocket.Frames.{on_handshake-closes_twice}

abbrev fresh : Client.Client
fresh = record {
  use_tls = false;
  write_queue = [];
  open_ = false;
  writing = false;
  closing = false;
  finished = false;
  close_code = 1000;
  close_reason = [];
  has_on_open = true;
  has_on_message = true;
  has_on_close = true;
}

-- A session in which the open callback sends a frame and closes, and then the server is gone.
abbrev session : List Client.Event
session =
    Client.Event.opens (some false)
    ∷ Client.Event.resolved Client.Result.succeeded
    ∷ Client.Event.connected true Client.Result.succeeded
    ∷ Client.Event.handshaken (Client.Op.sends (codes "hi") ∷ Client.Op.closes 1000 [] ∷ [])
        Client.Result.succeeded
    ∷ Client.Event.wrote Client.Result.succeeded
    ∷ Client.Event.close_done
    ∷ Client.Event.reads [] (Client.ReadResult.lost (codes "eof"))
    ∷ []

run-closes_once_example : close_calls (Client.run session fresh).1 ≡ 1
unfolding Client.run
run-closes_once_example = run-closes_once session fresh refl

on_handshake-closes_twice_example :
    (Client.on_handshake (Client.Op.closes 1001 [] ∷ []) Client.Result.succeeded fresh).1
    ≡ Client.Action.schedules_ping
      ∷ Client.Action.resets_silence
      ∷ Client.Action.async_reads
      ∷ Client.Action.calls_on_open
      ∷ Client.Action.async_closes 1001 []
      ∷ Client.Action.async_closes 1001 []
      ∷ []
on_handshake-closes_twice_example = on_handshake-closes_twice fresh 1001 [] refl refl refl refl refl

-- Two frames are queued at once, and one more while the first write runs.
abbrev sending : List Client.Event
sending =
    Client.Event.opens (some false)
    ∷ Client.Event.resolved Client.Result.succeeded
    ∷ Client.Event.connected true Client.Result.succeeded
    ∷ Client.Event.handshaken (Client.Op.sends (codes "a") ∷ Client.Op.sends (codes "b") ∷ [])
        Client.Result.succeeded
    ∷ Client.Event.ping_due
    ∷ Client.Event.wrote Client.Result.succeeded
    ∷ []

run-in_order_example :
    let (c', as') = Client.run sending fresh in written as' ++ pending c' ≡ queued as'
unfolding Client.run
run-in_order_example =
    run-in_order sending fresh refl refl (tt, (tt, (tt, (tt, (tt, (refl, tt)))))) refl
