-- ===== src/Socket/Tests.antt =====
-- A server over sockets that take two bytes at a time.
use pi_webrtc.Prelude.{◌≡◌, refl, Bytes, Bool, true, some, [], ◌∷◌, arith, nat_eq}
use pi_webrtc.Prelude.Dict.{Distinct}
use pi_webrtc.Socket.{Client, Server, create, write_all, write, publish_latest}
use pi_webrtc.Socket.Loopback.{Streams, kernel, laws}
use pi_webrtc.Socket.WriteAll.{Wrote, write_all_total}
use pi_webrtc.Socket.Clients.{Served}
use pi_webrtc.Socket.Latest.{GetsMessage, write-Served}
use pi_webrtc.Socket.Publish.{IsPublished, publish_latest-IsPublished}

abbrev silent : Streams
silent fd = []

abbrev client : Client
client = record { joinable = true; sent_version = 0 }

abbrev server : Server
server = record create { clients = (4, client) ∷ (9, client) ∷ [] }

abbrev message : Bytes
message = 1 ∷ 2 ∷ 3 ∷ []

server-Distinct : Distinct server.clients
server-Distinct = (refl, (refl, tt))

write_all_total_example :
    (k' : Streams) × (result : Bool) × (write_all kernel 10 4 message 0 silent ≡ some (k', result))
    × Wrote kernel laws 4 0 message silent k' result
write_all_total_example =
    write_all_total kernel laws 4 message 10 0 silent (omega arith) (omega arith)

write-Served_example :
    let (k', s', stale) = write kernel message server silent in
    Served kernel (GetsMessage message) 9 silent k' server.clients s'.clients stale
write-Served_example = write-Served kernel laws message server silent 9 server-Distinct

-- Two bytes, which the first socket takes at once.
publish_latest-IsPublished_example :
    IsPublished kernel
      (7 ∷ 8 ∷ [])
      server
      silent
      4
      (publish_latest kernel (7 ∷ 8 ∷ []) server silent)
publish_latest-IsPublished_example =
    publish_latest-IsPublished kernel laws (7 ∷ 8 ∷ []) server silent 4 server-Distinct
