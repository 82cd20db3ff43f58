-- ===== src/Channel/Ipc.antt =====
-- src/rtc/datachannel/ipc_channel.cpp: the channel between a peer and the endpoints on unix sockets.
-- A method that holds the mutex is one step on the record. `size_t` and the offset on the wire have
-- 64 bits. `out_of_range` is the exception of `std::string::replace`, which nothing catches.
pub mod Reassembly
pub mod Bounds
pub mod Delivery
pub mod Overrun
pub mod Sequence
mod Tests
use pi_webrtc.Prelude.{
  ℕ, ◌+◌, ◌-◌, ◌*◌, ◌%◌, ◌^◌, String, Bytes, Bool, true, false, not, ◌&&◌, ◌||◌, Option, none, some,
  List, [], ◌∷◌, length, replicate, is_empty, splice, ltb, leb, eqb, if◌then◌else◌, ◌==◌, string_eq,
  pair_eq,
}
use pi_webrtc.Prelude.Dict.{lookup, insert, erase}
use pi_webrtc.Channel.Role.{ChannelRole, command, stream, lossy, reliable}
use pi_webrtc.Channel.Packet.{
  Packet, Body, StreamPayload, ipc, raw, header, chunk, trailer, no_payload,
}
use pi_webrtc.Channel.Packet
use pi_webrtc.Channel.Stream.{stream_chunk_size, send_stream}

-- What the channel uses of the `EndpointRegistry`: `write` tells whether the endpoint is served.
pub record Endpoints : Type 1 where
  pub State : Type 0
  pub write : String → String → Bytes → State → State × Bool
  pub on_remote_closed : String → State → State

pub record Assembly : Type 0 where
  pub buffer : Bytes
  pub received : ℕ

pub record LastSequence : Type 0 where
  pub sequence : ℕ
  pub received_at : ℕ

-- `endpoints` is the pointer and the registry behind it; times are nanoseconds of `steady_clock`.
pub record IpcChannel (E : Endpoints) : Type 0 where
  pub role : ChannelRole
  pub endpoints : Option E.State
  pub assemblies : List (String × Assembly)
  pub last_sequence : List ((String × String) × LastSequence)
  pub remote_ids : List String

pub data Outcome (A : Type 0) : Type 0 where
  ok : A → Outcome A
  out_of_range : Outcome A

infixl 5 ◌>>=◌
abbrev pub ◌>>=◌ : {A B : Type 0} → Outcome A → (A → Outcome B) → Outcome B
ok a >>= f = f a
out_of_range >>= f = out_of_range

abbrev pub sequence_reset_gap : ℕ
sequence_reset_gap = 1_000_000_000

abbrev pub word : ℕ
word = 2 ^ 64

-- `IpcEndpoint::kName`.
abbrev pub default_endpoint : String
default_endpoint = ""

abbrev pub insert_id : String → List String → List String
insert_id id [] = id ∷ []
insert_id id (j ∷ ids) = if j == id then j ∷ ids else j ∷ insert_id id ids

-- `last_sequence_[key]`, which makes a zero entry at the epoch where there is none.
abbrev pub last_of : Option LastSequence → LastSequence
last_of none = record { sequence = 0; received_at = 0 }
last_of (some l) = l

abbrev pub is_lossy : ChannelRole → Bool
is_lossy lossy = true
is_lossy _ = false

-- `buffer.replace(offset, bytes.size(), bytes)`: it throws past the end of the buffer, and
-- replaces no more than the buffer has.
pub replaced : ℕ → Bytes → Assembly → Outcome Assembly
replaced offset bytes a =
    if ltb (length a.buffer) offset
    then out_of_range
    else ok (record { buffer = splice offset bytes a.buffer; received = a.received + length bytes })

-- The body of a finished assembly; it is empty where the stream is to be dropped.
finished_body : String → Assembly → Bytes
finished_body reason a =
    if not (reason == "")
    then []
    else if not (eqb a.received (length a.buffer))
    then []
    else a.buffer

close_remotes : (E : Endpoints) → List String → E.State → E.State
close_remotes E [] registry = registry
close_remotes E (id ∷ ids) registry = close_remotes E ids (E.on_remote_closed id registry)

module _ {E : Endpoints} where
  pub accept_sequence : ℕ → String → String → ℕ → IpcChannel E → IpcChannel E × Bool
  accept_sequence now remote_id endpoint sequence c =
      let key : String × String = (remote_id, endpoint) in
      let last = last_of (lookup key c.last_sequence) in
      if not (is_lossy c.role) || eqb sequence 0
      then (c, true)
      else if leb sequence last.sequence && ltb (now - last.received_at) sequence_reset_gap
      then (record c { last_sequence = insert key last c.last_sequence }, false)
      else (
        record c {
          last_sequence =
              insert key (record { sequence = sequence; received_at = now }) c.last_sequence;
        },
        true,
      )

  abbrev written : String → IpcChannel E → E.State × Bool → IpcChannel E
  written remote_id c (registry, true) = record c {
    endpoints = some registry;
    remote_ids = insert_id remote_id c.remote_ids;
  }
  written remote_id c (registry, false) = record c { endpoints = some registry }

  pub write_to_endpoint : String → String → Bytes → IpcChannel E → IpcChannel E
  write_to_endpoint endpoint remote_id payload c = elim c.endpoints [
    | none ↦ c
    | some registry ↦ written remote_id c (E.write endpoint remote_id payload registry)
  ]

  pub on_stream_header : String → ℕ → IpcChannel E → IpcChannel E
  on_stream_header stream_id total_length c =
      let assembly : Assembly = record { buffer = replicate total_length 0; received = 0 } in
      record c { assemblies = insert stream_id assembly c.assemblies }

  stored : String → ℕ → Bytes → IpcChannel E → Assembly → Outcome (IpcChannel E)
  unfolding replaced
  stored stream_id offset bytes c a =
      if ltb (length a.buffer) ((offset + length bytes) % word)
      then ok (record c { assemblies = erase stream_id c.assemblies })
      else do
        a' ← replaced offset bytes a
        ok (record c { assemblies = insert stream_id a' c.assemblies })

  pub on_stream_chunk : String → ℕ → Bytes → IpcChannel E → Outcome (IpcChannel E)
  unfolding stored
  on_stream_chunk stream_id offset bytes c = elim (lookup stream_id c.assemblies) [
    | none ↦ ok c
    | some a ↦ stored stream_id offset bytes c a
  ]

  pub on_stream_trailer : String → String → String → IpcChannel E → IpcChannel E
  unfolding finished_body
  on_stream_trailer stream_id reason remote_id c = elim (lookup stream_id c.assemblies) [
    | none ↦ c
    | some a ↦
        let body = finished_body reason a in
        let c' : IpcChannel E = record c { assemblies = erase stream_id c.assemblies } in
        if is_empty body then c' else write_to_endpoint default_endpoint remote_id body c'
  ]

  pub on_stream : String → String → StreamPayload → IpcChannel E → Outcome (IpcChannel E)
  on_stream remote_id stream_id (header total_length mime_type) c =
      ok (on_stream_header stream_id total_length c)
  on_stream remote_id stream_id (chunk offset bytes) c = on_stream_chunk stream_id offset bytes c
  on_stream remote_id stream_id (trailer reason) c =
      ok (on_stream_trailer stream_id reason remote_id c)
  on_stream remote_id stream_id no_payload c = ok c

  on_ipc : ℕ → String → String → ℕ → Bytes → IpcChannel E → IpcChannel E
  on_ipc now remote_id endpoint sequence payload c =
      let (c', accepted) = accept_sequence now remote_id endpoint sequence c in
      if not accepted then c' else write_to_endpoint endpoint remote_id payload c'

  on_body : ℕ → String → Body → IpcChannel E → Outcome (IpcChannel E)
  unfolding on_ipc on_stream
  on_body now remote_id (ipc endpoint sequence payload) c =
      ok (on_ipc now remote_id endpoint sequence payload c)
  on_body now remote_id (raw payload) c =
      ok (write_to_endpoint default_endpoint remote_id payload c)
  on_body now remote_id (Packet.stream stream_id payload) c =
      on_stream remote_id stream_id payload c
  on_body now remote_id _ c = ok c

  pub on_packet : ℕ → Packet → String → IpcChannel E → Outcome (IpcChannel E)
  unfolding on_body
  on_packet now packet remote_id c = on_body now remote_id packet.body c

  pub notify_remotes_closed : IpcChannel E → IpcChannel E
  unfolding close_remotes
  notify_remotes_closed c = elim c.endpoints [
    | none ↦ record c { remote_ids = [] }
    | some registry ↦ record c {
      remote_ids = [];
      endpoints = some (close_remotes E c.remote_ids registry);
    }
  ]

-- `SendToPeer`: what it hands to `Send`. The stream id is drawn only where a stream is sent.
pub send_to_peer : Bool → String → Bytes → List Packet
send_to_peer is_open stream_id message =
    if not is_open
    then []
    else if ltb stream_chunk_size (length message)
    then send_stream stream_id "" "application/octet-stream" message
    else record { request_id = ""; body = raw message } ∷ []
