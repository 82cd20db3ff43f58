-- ===== src/Channel/Outbound.antt =====
-- `RtcChannel` of src/rtc/datachannel/rtc_channel.cpp: the queue of outgoing messages, the thread
-- that sends them, incoming buffers, and the end of the channel. The send thread's loop is a state
-- machine of one step for each time it looks at what others may change: the queue, the flag
-- `send_thread_running_`, and webrtc's channel, which each step reads as an observation.
pub mod Order
pub mod Transport
mod Tests
use pi_webrtc.Prelude.{
  ℕ, ◌+◌, String, Bytes, Bool, true, false, not, ◌&&◌, ◌||◌, Option, none, some, List, [], ◌∷◌,
  ◌++◌, length, is_empty, ltb, if◌then◌else◌,
}
use pi_webrtc.Channel.Role.{ChannelRole}
use pi_webrtc.Channel.Packet.{Packet}
use pi_webrtc.Channel.Framing.{ChannelFraming, Codec, encode, decode}

-- Where the send thread stands in `SendLoop`.
pub data Phase : Type 0 where
  -- at the wait for a message
  waiting : Phase
  -- at the test of the loop that waits for room
  holding : Bytes → Phase
  -- behind that loop, before the last test
  checked : Bytes → Phase
  returned : Phase

-- `on_closed_funcs` are the callbacks, by number; `wire` is what `data_channel->Send` was given.
pub record RtcChannel : Type 0 where
  pub role : ChannelRole
  pub id : String
  pub label : String
  pub framing : ChannelFraming
  pub on_closed_funcs : List ℕ
  pub send_queue : List Bytes
  pub send_thread_running : Bool
  pub phase : Phase
  pub observed : Bool
  pub closed : Bool
  pub wire : List Bytes

-- What webrtc's channel shows at a step of the loop.
pub record Observation : Type 0 where
  pub is_open : Bool
  pub buffered_amount : ℕ
  pub max_send_queue_size : ℕ

pub create : ChannelRole → String → String → ChannelFraming → RtcChannel
create role id label framing = record {
  role = role;
  id = id;
  label = label;
  framing = framing;
  on_closed_funcs = [];
  send_queue = [];
  send_thread_running = true;
  phase = waiting;
  observed = true;
  closed = false;
  wire = [];
}

pub on_closed : ℕ → RtcChannel → RtcChannel
on_closed func c = record c { on_closed_funcs = c.on_closed_funcs ++ func ∷ [] }

-- `SendBytes`.
pub send_bytes : Codec → Bytes → RtcChannel → RtcChannel
send_bytes k bytes c =
    let framed = encode k c.framing bytes in
    if is_empty framed then c else record c { send_queue = c.send_queue ++ framed ∷ [] }

-- `Send`.
pub send : Codec → Packet → RtcChannel → RtcChannel
unfolding send_bytes
send k packet c = elim (k.write_packet packet) [ none ↦ c | some buf ↦ send_bytes k buf c ]

pub send_all : Codec → List Packet → RtcChannel → RtcChannel
send_all k [] c = c
send_all k (p ∷ ps) c = send_all k ps (send k p c)

-- The wait at the top of the loop, by what the queue holds.
pub take_message : List Bytes → RtcChannel → RtcChannel
take_message [] c = if not c.send_thread_running then record c { phase = returned } else c
take_message (buf ∷ rest) c = record c { send_queue = rest; phase = holding buf }

pub loop_phase : Phase → Observation → RtcChannel → RtcChannel
unfolding take_message
loop_phase waiting o c = take_message c.send_queue c
loop_phase (holding buf) o c =
    if c.send_thread_running
      && (o.is_open && ltb o.max_send_queue_size (o.buffered_amount + length buf))
    then c
    else record c { phase = checked buf }
loop_phase (checked buf) o c =
    if not c.send_thread_running || not o.is_open
    then record c { phase = returned }
    else record c { wire = c.wire ++ buf ∷ []; phase = waiting }
loop_phase returned o c = c

pub loop_step : Observation → RtcChannel → RtcChannel
unfolding loop_phase
loop_step o c = loop_phase c.phase o c

-- The store of `StopSendThread`; its `join` returns once the loop has.
pub stop_send_thread : RtcChannel → RtcChannel
stop_send_thread c = record c { send_thread_running = false }

-- `Terminate` behind the join, with the callbacks that it runs.
pub finish_terminate : RtcChannel → RtcChannel × List ℕ
finish_terminate c =
    (record c { observed = false; closed = true; on_closed_funcs = [] }, c.on_closed_funcs)

-- `OnMessage`: the packet and its sender for `OnPacket`, if there is one.
pub on_message : Codec → Bytes → RtcChannel → Option (Packet × String)
on_message k buffer c = elim (decode k c.framing buffer) [
  | none ↦ none
  | some (payload, remote_id) ↦ elim (k.read_packet payload) [
    | none ↦ none
    | some packet ↦ some (packet, remote_id)
  ]
]
