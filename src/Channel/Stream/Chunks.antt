-- ===== src/Channel/Stream/Chunks.antt =====
-- What the chunks of a stream carry: stretches of the body that follow on one another.
use pi_webrtc.Prelude.{
  ℕ, zero, suc, ◌+◌, ◌-◌, ◌≤◌, ◌<◌, ◌≡◌, refl, ap, sym, ◌∙◌, min, String, Bytes, List, [], ◌∷◌,
  ◌++◌, take, drop, length, ltb, if◌then◌else◌, arith, Bool-cases, is_empty, eqb, length-append,
  inl, inr, map, take-append-drop, drop-all, drop-drop,
}
use pi_webrtc.Channel.Packet.{Packet}
use pi_webrtc.Channel.Stream.{
  stream_chunk_size, send_stream_chunk, send_chunks, send_stream, send_stream_header,
  send_stream_trailer, send_reads, File, send_file,
}

-- A chunk by its offset and its bytes.
abbrev pub Chunk : Type 0
Chunk = ℕ × Bytes

abbrev pub chunk_packet : String → Chunk → Packet
chunk_packet stream_id (offset, bytes) = send_stream_chunk stream_id offset bytes

-- The chunks that `send_chunks` puts into packets.
pub chunks : ℕ → Bytes → ℕ → List Chunk
chunks zero bytes offset = []
chunks (suc fuel) bytes offset =
    let read_size = min stream_chunk_size (length bytes - offset) in
    let rest = chunks fuel bytes (offset + read_size) in
    if ltb offset (length bytes) then (offset, take read_size (drop offset bytes)) ∷ rest else []

pub send_chunks-chunks :
    (fuel : ℕ) (stream_id : String) (bytes : Bytes) (offset : ℕ)
    → send_chunks fuel stream_id bytes offset
      ≡ map (chunk_packet stream_id) (chunks fuel bytes offset)
unfolding send_chunks chunks
send_chunks-chunks zero stream_id bytes offset = refl
send_chunks-chunks (suc fuel) stream_id bytes offset = ground (
  arith,
  send_chunks-chunks fuel stream_id bytes (offset + min stream_chunk_size (length bytes - offset)),
)

-- The chunks lie one behind the other from an offset to the end of the body, each holds the
-- body's bytes there, at least one of them and at most a chunk's size.
pub data Tiles (bytes : Bytes) : ℕ → List Chunk → Type 0 where
  done : {offset : ℕ} → offset ≡ length bytes → Tiles bytes offset []
  next :
      {offset : ℕ} {cs : List Chunk} (n : ℕ)
      → 0 < n
      → n ≤ stream_chunk_size
      → offset + n ≤ length bytes
      → Tiles bytes (offset + n) cs
      → Tiles bytes offset ((offset, take n (drop offset bytes)) ∷ cs)

pub chunks-Tiles :
    (fuel : ℕ) (bytes : Bytes) (offset : ℕ)
    → offset ≤ length bytes
    → length bytes - offset ≤ fuel
    → Tiles bytes offset (chunks fuel bytes offset)
unfolding chunks
chunks-Tiles zero bytes offset h f = done (omega arith)
chunks-Tiles (suc fuel) bytes offset h f = elim (Bool-cases (ltb offset (length bytes))) [
  | inl more ↦
      let n = min stream_chunk_size (length bytes - offset) in
      rw more (
        next n (ground arith) (omega arith) (ground arith)
          (chunks-Tiles fuel bytes (offset + n) (ground arith) (ground arith)))
  | inr end ↦ rw end (done (ground arith))
]

pub concat_chunks : List Chunk → Bytes
concat_chunks [] = []
concat_chunks ((offset, bytes) ∷ cs) = bytes ++ concat_chunks cs

Tiles-concat :
    {bytes : Bytes} {offset : ℕ} {cs : List Chunk}
    → Tiles bytes offset cs
    → concat_chunks cs ≡ drop offset bytes
unfolding concat_chunks
Tiles-concat {bytes} {offset} (done e) = sym (drop-all offset bytes (omega arith))
Tiles-concat {bytes} {offset} (next n p q r t) =
    ap (◌++◌ (take n (drop offset bytes))) (Tiles-concat t ∙ sym (drop-drop offset n bytes))
    ∙ take-append-drop n (drop offset bytes)

-- A stream of a body is a header with the body's length, then chunks that lie one behind the other
-- from the first byte to the last and whose bytes make up the body, each with between one byte
-- and a chunk's size, then a trailer with no reason.
pub send_stream_lem :
    (stream_id request_id mime_type : String) (bytes : Bytes)
    → (cs : List Chunk) × (send_stream stream_id request_id mime_type bytes
        ≡ send_stream_header request_id stream_id mime_type (length bytes)
          ∷ (map (chunk_packet stream_id) cs ++ send_stream_trailer stream_id "" ∷ []))
      × Tiles bytes 0 cs
      × (concat_chunks cs ≡ bytes)
unfolding send_stream
send_stream_lem stream_id request_id mime_type bytes =
    let tiles = chunks-Tiles (length bytes) bytes 0 (omega arith) (omega arith) in
    (
      chunks (length bytes) bytes 0,
      rw (send_chunks-chunks (length bytes) stream_id bytes 0),
      tiles,
      Tiles-concat tiles,
    )

-- The bytes that a read loop gets: those before the first read of nothing.
abbrev pub content : List Bytes → Bytes
content [] = []
content (bytes ∷ reads) = if is_empty bytes then [] else bytes ++ content reads

send_reads-offset :
    (stream_id : String) (reads : List Bytes) (offset : ℕ)
    → (send_reads stream_id reads offset).1 ≡ offset + length (content reads)
unfolding send_reads
send_reads-offset stream_id [] offset = omega arith
send_reads-offset stream_id ([] ∷ reads) offset = omega arith
send_reads-offset stream_id ((b ∷ bs) ∷ reads) offset = omega (
  arith,
  send_reads-offset stream_id reads (offset + length (b ∷ bs)),
  length-append (b ∷ bs) (content reads),
)

-- The chunks of a read loop, each with the number of bytes read before it.
abbrev pub read_chunks : List Bytes → ℕ → List Chunk
read_chunks [] offset = []
read_chunks (bytes ∷ reads) offset =
    if is_empty bytes then [] else (offset, bytes) ∷ read_chunks reads (offset + length bytes)

send_reads-chunks :
    (stream_id : String) (reads : List Bytes) (offset : ℕ)
    → (send_reads stream_id reads offset).0
      ≡ map (chunk_packet stream_id) (read_chunks reads offset)
unfolding send_reads
send_reads-chunks stream_id [] offset = refl
send_reads-chunks stream_id ([] ∷ reads) offset = refl
send_reads-chunks stream_id ((b ∷ bs) ∷ reads) offset =
    ap (◌∷◌ (send_stream_chunk stream_id offset (b ∷ bs)))
      (send_reads-chunks stream_id reads (offset + length (b ∷ bs)))

-- A file that is not open sends nothing. An open one sends a header with its size, a chunk for each
-- read before the first empty one at the offset of the bytes read so far, and a trailer that
-- gives no reason if as many bytes were read as the header promised, and a read error if not.
pub send_file_lem :
    (stream_id request_id mime_type : String) (file : File)
    → send_file stream_id request_id mime_type file ≡ (
        if file.is_open
        then send_stream_header request_id stream_id mime_type file.total_size
          ∷ (map (chunk_packet stream_id) (read_chunks file.reads 0)
              ++ send_stream_trailer stream_id
                  (if eqb (length (content file.reads)) file.total_size then "" else "read error")
                ∷ [])
        else [])
unfolding send_file
send_file_lem stream_id request_id mime_type file =
    ground
      (arith, send_reads-offset stream_id file.reads 0, send_reads-chunks stream_id file.reads 0)
