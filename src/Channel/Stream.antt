-- ===== src/Channel/Stream.antt =====
-- Chunked streams: `SendStream` and its parts in src/rtc/datachannel/rtc_channel.cpp, and the
-- callers of it in stream_channel.cpp. A writer yields the packets that it hands to `Send`, in order.
-- The stream id that `GenerateUuid` draws is an argument.
pub mod Chunks
use pi_webrtc.Prelude.{
  ℕ, zero, suc, ◌+◌, ◌-◌, ◌*◌, min, String, Bytes, Bool, true, false, List, [], ◌∷◌, ◌++◌, take,
  drop, length, ltb, eqb, if◌then◌else◌, is_empty,
}
use pi_webrtc.Channel.Packet.{Packet, Body, stream, header, chunk, trailer}

abbrev pub stream_chunk_size : ℕ
stream_chunk_size = 64 * 1024

unfoldable pub send_stream_header : String → String → String → ℕ → Packet
send_stream_header request_id stream_id mime_type total_length = record {
  request_id = request_id;
  body = stream stream_id (header total_length mime_type);
}

unfoldable pub send_stream_chunk : String → ℕ → Bytes → Packet
send_stream_chunk stream_id offset bytes = record {
  request_id = "";
  body = stream stream_id (chunk offset bytes);
}

unfoldable pub send_stream_trailer : String → String → Packet
send_stream_trailer stream_id reason = record {
  request_id = "";
  body = stream stream_id (trailer reason);
}

-- The loop of `SendStream` over a buffer, from an offset. Each round advances by a byte at least,
-- so the buffer's length is fuel enough.
unfoldable pub send_chunks : ℕ → String → Bytes → ℕ → List Packet
send_chunks zero stream_id bytes offset = []
send_chunks (suc fuel) stream_id bytes offset =
    let read_size = min stream_chunk_size (length bytes - offset) in
    let rest = send_chunks fuel stream_id bytes (offset + read_size) in
    if ltb offset (length bytes)
    then send_stream_chunk stream_id offset (take read_size (drop offset bytes)) ∷ rest
    else []

unfoldable pub send_stream : String → String → String → Bytes → List Packet
unfolding send_stream_header send_stream_trailer send_chunks send_stream_chunk
send_stream stream_id request_id mime_type bytes =
    send_stream_header request_id stream_id mime_type (length bytes)
    ∷ (send_chunks (length bytes) stream_id bytes 0 ++ send_stream_trailer stream_id "" ∷ [])

-- A file as the loop meets it: whether it is open, the size that `tellg` tells at its end, and what
-- the successive reads of a chunk return. The loop ends at a read of no bytes.
pub record File : Type 0 where
  pub is_open : Bool
  pub total_size : ℕ
  pub reads : List Bytes

-- The packets of the read loop, and the offset at which it ends.
unfoldable pub send_reads : String → List Bytes → ℕ → List Packet × ℕ
send_reads stream_id [] offset = ([], offset)
send_reads stream_id (bytes ∷ reads) offset =
    let (packets, final) = send_reads stream_id reads (offset + length bytes) in
    if is_empty bytes
    then ([], offset)
    else (send_stream_chunk stream_id offset bytes ∷ packets, final)

unfoldable pub send_file : String → String → String → File → List Packet
unfolding send_stream_header send_stream_trailer send_reads send_stream_chunk
send_file stream_id request_id mime_type file =
    let (packets, offset) = send_reads stream_id file.reads 0 in
    if file.is_open
    then send_stream_header request_id stream_id mime_type file.total_size
      ∷ (packets
          ++ (if eqb offset file.total_size
              then send_stream_trailer stream_id ""
              else send_stream_trailer stream_id "read error")
            ∷ [])
    else []
