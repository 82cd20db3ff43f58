-- ===== src/WebSocket/Order/Sent.antt =====
-- The frames among the actions of src/signaling/websocket_client.cpp.
use pi_webrtc.Prelude.{◌≡◌, refl, ap, List, [], ◌∷◌, ◌++◌}
use pi_webrtc.WebSocket.Client
use pi_webrtc.WebSocket.Runs

-- The frames whose write Boost is asked for, and those that `Queue` takes.
abbrev pub written : List Client.Action → List Client.Frame
written [] = []
written (Client.Action.async_writes f ∷ as') = f ∷ written as'
written (a ∷ as') = written as'

abbrev pub queued : List Client.Action → List Client.Frame
queued [] = []
queued (Client.Action.queues f ∷ as') = f ∷ queued as'
queued (a ∷ as') = queued as'

pub written-append : (as' bs : List Client.Action) → written (as' ++ bs) ≡ written as' ++ written bs
written-append [] bs = refl
written-append (Client.Action.posts_finish ∷ as') bs = written-append as' bs
written-append (Client.Action.async_resolves ∷ as') bs = written-append as' bs
written-append (Client.Action.async_connects ∷ as') bs = written-append as' bs
written-append (Client.Action.tls_handshakes ∷ as') bs = written-append as' bs
written-append (Client.Action.async_handshakes ∷ as') bs = written-append as' bs
written-append (Client.Action.async_reads ∷ as') bs = written-append as' bs
written-append (Client.Action.schedules_ping ∷ as') bs = written-append as' bs
written-append (Client.Action.resets_silence ∷ as') bs = written-append as' bs
written-append (Client.Action.cancels_timers ∷ as') bs = written-append as' bs
written-append (Client.Action.closes_socket ∷ as') bs = written-append as' bs
written-append (Client.Action.calls_on_open ∷ as') bs = written-append as' bs
written-append (Client.Action.queues f ∷ as') bs = written-append as' bs
written-append (Client.Action.async_writes f ∷ as') bs = ap (◌∷◌ f) (written-append as' bs)
written-append (Client.Action.async_closes code reason ∷ as') bs = written-append as' bs
written-append (Client.Action.calls_on_message payload ∷ as') bs = written-append as' bs
written-append (Client.Action.calls_on_close code reason ∷ as') bs = written-append as' bs

pub written-quiet : (as' : List Client.Action) → Runs.AreQuiet as' → written as' ≡ []
written-quiet [] q = refl
written-quiet (Client.Action.posts_finish ∷ as') q = written-quiet as' q
written-quiet (Client.Action.async_resolves ∷ as') q = written-quiet as' q
written-quiet (Client.Action.async_connects ∷ as') q = written-quiet as' q
written-quiet (Client.Action.tls_handshakes ∷ as') q = written-quiet as' q
written-quiet (Client.Action.async_handshakes ∷ as') q = written-quiet as' q
written-quiet (Client.Action.async_reads ∷ as') q = written-quiet as' q
written-quiet (Client.Action.schedules_ping ∷ as') q = written-quiet as' q
written-quiet (Client.Action.resets_silence ∷ as') q = written-quiet as' q
written-quiet (Client.Action.cancels_timers ∷ as') q = written-quiet as' q
written-quiet (Client.Action.closes_socket ∷ as') q = written-quiet as' q
written-quiet (Client.Action.calls_on_open ∷ as') q = written-quiet as' q
written-quiet (Client.Action.queues f ∷ as') q = elim q [ ]
written-quiet (Client.Action.async_writes f ∷ as') q = elim q [ ]
written-quiet (Client.Action.async_closes code reason ∷ as') q = written-quiet as' q
written-quiet (Client.Action.calls_on_message payload ∷ as') q = written-quiet as' q
written-quiet (Client.Action.calls_on_close code reason ∷ as') q = elim q [ ]

pub queued-append : (as' bs : List Client.Action) → queued (as' ++ bs) ≡ queued as' ++ queued bs
queued-append [] bs = refl
queued-append (Client.Action.posts_finish ∷ as') bs = queued-append as' bs
queued-append (Client.Action.async_resolves ∷ as') bs = queued-append as' bs
queued-append (Client.Action.async_connects ∷ as') bs = queued-append as' bs
queued-append (Client.Action.tls_handshakes ∷ as') bs = queued-append as' bs
queued-append (Client.Action.async_handshakes ∷ as') bs = queued-append as' bs
queued-append (Client.Action.async_reads ∷ as') bs = queued-append as' bs
queued-append (Client.Action.schedules_ping ∷ as') bs = queued-append as' bs
queued-append (Client.Action.resets_silence ∷ as') bs = queued-append as' bs
queued-append (Client.Action.cancels_timers ∷ as') bs = queued-append as' bs
queued-append (Client.Action.closes_socket ∷ as') bs = queued-append as' bs
queued-append (Client.Action.calls_on_open ∷ as') bs = queued-append as' bs
queued-append (Client.Action.queues f ∷ as') bs = ap (◌∷◌ f) (queued-append as' bs)
queued-append (Client.Action.async_writes f ∷ as') bs = queued-append as' bs
queued-append (Client.Action.async_closes code reason ∷ as') bs = queued-append as' bs
queued-append (Client.Action.calls_on_message payload ∷ as') bs = queued-append as' bs
queued-append (Client.Action.calls_on_close code reason ∷ as') bs = queued-append as' bs

pub queued-quiet : (as' : List Client.Action) → Runs.AreQuiet as' → queued as' ≡ []
queued-quiet [] q = refl
queued-quiet (Client.Action.posts_finish ∷ as') q = queued-quiet as' q
queued-quiet (Client.Action.async_resolves ∷ as') q = queued-quiet as' q
queued-quiet (Client.Action.async_connects ∷ as') q = queued-quiet as' q
queued-quiet (Client.Action.tls_handshakes ∷ as') q = queued-quiet as' q
queued-quiet (Client.Action.async_handshakes ∷ as') q = queued-quiet as' q
queued-quiet (Client.Action.async_reads ∷ as') q = queued-quiet as' q
queued-quiet (Client.Action.schedules_ping ∷ as') q = queued-quiet as' q
queued-quiet (Client.Action.resets_silence ∷ as') q = queued-quiet as' q
queued-quiet (Client.Action.cancels_timers ∷ as') q = queued-quiet as' q
queued-quiet (Client.Action.closes_socket ∷ as') q = queued-quiet as' q
queued-quiet (Client.Action.calls_on_open ∷ as') q = queued-quiet as' q
queued-quiet (Client.Action.queues f ∷ as') q = elim q [ ]
queued-quiet (Client.Action.async_writes f ∷ as') q = elim q [ ]
queued-quiet (Client.Action.async_closes code reason ∷ as') q = queued-quiet as' q
queued-quiet (Client.Action.calls_on_message payload ∷ as') q = queued-quiet as' q
queued-quiet (Client.Action.calls_on_close code reason ∷ as') q = elim q [ ]
