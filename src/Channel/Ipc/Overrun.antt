-- ===== src/Channel/Ipc/Overrun.antt =====
-- Which packets make `IpcChannel` throw, over what it receives.
use pi_webrtc.Prelude.{◌+◌, ◌<◌, length, string_eq}
use pi_webrtc.Channel.Packet.{Packet, Body, stream, chunk}
use pi_webrtc.Channel.Ipc.{word}

-- A chunk does not end past 2^64.
abbrev pub EndsBelow : Body → Type 0
EndsBelow (stream stream_id (chunk offset bytes)) = offset + length bytes < word
EndsBelow _ = Unit
