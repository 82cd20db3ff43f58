-- ===== src/Lib.antt =====
-- pi-webrtc: the parts of the streamer that carry messages between a peer, the device and its local
-- sockets, the life of a peer connection, its signaling over WHEP, MQTT and WebSockets, and the
-- recording of files and the search for them.
--
-- The program answers a signaling service with peer connections, sends the cameras' frames over them
-- and opens data channels on each. A `command` channel takes requests, a `stream` channel takes
-- bulk answers in chunks, and the channels `_lossy` and `_reliable` pass messages between the peer
-- and the endpoints that local programs reach on unix sockets. A registry holds the peers and
-- drops the expired ones.
--
-- Which file models which part:
--   Queue      src/common/thread_safe_queue.h: ThreadSafeQueue, the queue of frames
--   Subject    src/common/interface/subject.h: Subject, Subscription
--   Channel    src/rtc/datachannel:
--     Role       ChannelRole, RoleInit, RoleLabel, RoleFromLabel, RoleId of rtc_channel
--     Packet     the view of protocol::Packet that the channels take
--     Framing    PlainFraming and LiveKitFraming of channel_framing.cpp
--     Stream     SendStream of rtc_channel.cpp over a buffer and over a file
--     Outbound   RtcChannel: Send, SendLoop, StopSendThread, Terminate, OnMessage
--     Ipc        IpcChannel of ipc_channel.cpp
--     Command    CommandChannel of command_channel.cpp
--   Socket     src/ipc/unix_socket_server.cpp: UnixSocketServer
--   Gamepad    src/ipc/gamepad_endpoint.cpp: GamepadEndpoint
--   Registry   src/ipc/endpoint_registry.cpp and ipc_endpoint.cpp
--   Peers      src/signaling/peer_registry.cpp: PeerRegistry and its cleaner thread
--   Peer       src/rtc/rtc_peer.cpp: RtcPeer
--   Whep       src/signaling/whep_service.cpp: WhepTarget, the texts of SDP, HttpSession
--   Mqtt       src/signaling/mqtt_service.cpp: MqttService, its topics and its two maps
--   WebSocket  src/signaling/websocket_client.cpp: WebSocketClient
--   Recorder   src/recorder/recorder_manager.cpp: RecorderManager; the names of its files (Naming) and
--              the removal of old ones (Disk)
--   Media      src/recorder/media_query.cpp: ToBase64 (Base64), the listing of folders (Folders) and
--              the three searches (Search)
--   Prelude    what the modules share
-- Definitions keep the source's names in lower case; a module's children hold its theorems, and its
-- Tests runs of it and the theorems at concrete inputs.
--
-- How the parts meet: Gamepad and Registry call the servers of Socket. Channel.Ipc asks for the
-- endpoints that the record `Endpoints` describes, and `Registry.registry_endpoints` fills it.
-- Channel.Command and Channel.Stream send through Channel.Outbound, whose messages Channel.Ipc
-- takes at the other end. Mqtt keeps its peers in Peers and hears from its cleaner which have expired.
--
-- State and steps: a method is a function from a record of the class's fields, and of what it calls, to
-- the new record and the calls it makes. A method that holds its mutex throughout is one step. Where
-- threads meet, an interleaving is a list of steps (Queue, Subject, Channel.Outbound, Peer) or a
-- step relation (Peers). Listeners and callbacks are numbers or flags, and their calls are
-- results; in Subject, what a callback does to the subject is a parameter.
--
-- Parameters: code from outside the repository. `Codec` is protobuf, with the law that what is
-- written reads back. `Kernel` is the sockets of Linux, with the laws of `send`. `Libraries` is
-- floats, the protobuf report and the JSON writer. `Parsers` is webrtc's parsers of descriptions and
-- candidates. `Json` is what nlohmann::json reads and prints. FFmpeg, Boost, the disk's free
-- space and the removal of files answer by arguments of a step, and their calls are its results; Recorder.Protocol states
-- the order of calls that FFmpeg documents. GetPreviousDate is a function that Media is given. What webrtc's objects show at a moment is an argument of the step that reads it.
--
-- Numbers are natural numbers; sums that the code computes in 64 bits are taken modulo 2^64 where they
-- can exceed it, in the overrun test of a chunk and in the version of the latest message. A clock
-- does not go back.
--
-- Loops are structural, with four exceptions. `SendStream` over a buffer runs on the buffer's length,
-- which is enough since each round sends a byte at least. `WriteAll` runs on the message's length
-- and the interrupts to come plus one, which is enough since each `send` that does not end the
-- loop makes one of the two smaller. The search for older files runs on the folders before the
-- file's own, which is enough since each round leaves one behind. The search from a time has the bound
-- of ten folders that the code gives it. The loop that makes room on the disk runs over the rounds it
-- is given, with what the disk answers in each.
--
-- Not modelled: the capture, encoding and playing of media, and of the recordings the preview images and
-- the packets' timestamps; the Cloudflare and LiveKit services and the HTTP client; what Boost,
-- libmosquitto and FFmpeg do; the command line; the wiring of webrtc objects in the conductor; of
-- RtcPeer, the map of its channels, RestartIce and ModifySetupAttribute. Of the WebSocket client, the
-- reading of its url: the model is given what it says of TLS. Of the sockets that a server
-- shuts down, only the server's own results tell; the registry forgets them.
-- The listing of `record_path` and of a day's folder by RotateFiles, whose exceptions nothing catches,
-- succeeds. Log output is left out everywhere.
pub mod Prelude
pub mod Queue
pub mod Media
pub mod Mqtt
pub mod Recorder
pub mod Subject
pub mod Channel
pub mod Socket
pub mod WebSocket
pub mod Whep
pub mod Gamepad
pub mod Registry
pub mod Peers
pub mod Peer
