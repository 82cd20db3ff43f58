-- ===== src/WebSocket/Frames.antt =====
-- The close frame of src/signaling/websocket_client.cpp when the open callback closes the client.
use pi_webrtc.Prelude.{ℕ, ◌≡◌, refl, true, false, [], ◌∷◌, Bytes}
use pi_webrtc.WebSocket.Client

-- A client that is not yet open, with an open callback that closes it at once: when the handshake succeeds, Boost is
-- asked for two close frames at a time.
pub on_handshake-closes_twice :
    (c : Client.Client) (code : ℕ) (reason : Bytes)
    → c.finished ≡ false
    → c.closing ≡ false
    → c.writing ≡ false
    → c.write_queue ≡ []
    → c.has_on_open ≡ true
    → (Client.on_handshake (Client.Op.closes code reason ∷ []) Client.Result.succeeded c).1
      ≡ Client.Action.schedules_ping
        ∷ Client.Action.resets_silence
        ∷ Client.Action.async_reads
        ∷ Client.Action.calls_on_open
        ∷ Client.Action.async_closes code reason
        ∷ Client.Action.async_closes code reason
        ∷ []
unfolding Client.on_handshake Client.act_all Client.act Client.close Client.do_write Client.finish
on_handshake-closes_twice c code reason a b d e f = rw (a, b, d, e, f) refl
