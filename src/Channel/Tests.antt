-- ===== src/Channel/Tests.antt =====
-- The roles and the chunked streams at concrete inputs.
use pi_webrtc.Prelude.{Bytes, true, [], ◌∷◌}
use pi_webrtc.Channel.Stream.{File}

abbrev body : Bytes
body = 1 ∷ 2 ∷ 3 ∷ []

-- The second read ends early, and the third finds nothing.
abbrev shrunk : File
shrunk = record { is_open = true; total_size = 4; reads = (1 ∷ 2 ∷ []) ∷ (3 ∷ []) ∷ [] ∷ [] }
