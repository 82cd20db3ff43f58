-- ===== src/Channel/Ipc/Delivery.antt =====
-- What a whole stream does to the channel that receives it.
use mathlib.Core.List.{Permᴰ}
use pi_webrtc.Prelude.{
  ℕ, ◌+◌, ◌≤◌, ◌<◌, ◌≡◌, ◌≢◌, refl, sym, ap, ◌∙◌, String, Bytes, some, List, [], ◌∷◌, ◌++◌, map,
  length, replicate, splice, All, length-splice, length-replicate, ==_refl, string_eq, arith,
}
use pi_webrtc.Prelude.Dict.{lookup, insert, erase, lookup-insert, erase-insert}
use pi_webrtc.Channel.Packet.{Packet}
use pi_webrtc.Channel.Stream.{
  send_stream, send_stream_header, send_stream_chunk, send_stream_trailer,
}
use pi_webrtc.Channel.Stream.Chunks.{Chunk, chunk_packet, Tiles, send_stream_lem}
use pi_webrtc.Channel.Ipc.Reassembly.{overlay, total, IsSlice, Permᴰ-overlay}
use pi_webrtc.Channel.Ipc.{
  Endpoints, Assembly, IpcChannel, Outcome, ok, ◌>>=◌, word, default_endpoint, write_to_endpoint,
  on_stream_header, on_stream_chunk, on_stream_trailer, finished_body, on_packet,
}

-- The table of assemblies after chunks of one stream: its entry, and the rest as before.
record After (stream_id : String) (a : Assembly) (m m' : List (String × Assembly)) : Type 0 where
  entry : lookup stream_id m' ≡ some a
  others : erase stream_id m' ≡ erase stream_id m

finished-buffer : (a : Assembly) → a.received ≡ length a.buffer → finished_body "" a ≡ a.buffer
unfolding finished_body
finished-buffer a e = ground arith

Permᴰ-refl : (cs : List Chunk) → Permᴰ cs cs
Permᴰ-refl [] = Permᴰ.nil
Permᴰ-refl (c ∷ cs) = Permᴰ.cons refl (Permᴰ-refl cs)

module _ {E : Endpoints} where
  -- Packets of one sender, taken one after the other at a time.
  unfoldable pub receive : ℕ → String → List Packet → IpcChannel E → Outcome (IpcChannel E)
  receive now remote_id [] c = ok c
  receive now remote_id (p ∷ ps) c = on_packet now p remote_id c >>= receive now remote_id ps

  chunk_stored :
      (stream_id : String) (body : Bytes) (offset : ℕ) (bytes : Bytes) (c : IpcChannel E)
      (a : Assembly)
      → lookup stream_id c.assemblies ≡ some a
      → length a.buffer ≡ length body
      → length body < word
      → offset + length bytes ≤ length body
      → on_stream_chunk stream_id offset bytes c
        ≡ ok (record c {
          assemblies =
              insert stream_id
                (record {
                  buffer = splice offset bytes a.buffer;
                  received = a.received + length bytes;
                })
                c.assemblies;
        })
  unfolding on_stream_chunk
  chunk_stored stream_id body offset bytes c a found e small fits =
      rw (found, on_stream_chunk) (ground arith)

  chunks_stored :
      (now : ℕ) (remote_id stream_id : String) (body : Bytes) (cs : List Chunk) (rest : List Packet)
      (c : IpcChannel E) (a : Assembly)
      → lookup stream_id c.assemblies ≡ some a
      → length a.buffer ≡ length body
      → length body < word
      → All (IsSlice body) cs
      → (m : List (String × Assembly)) × (receive now remote_id
            (map (chunk_packet stream_id) cs ++ rest)
            c
          ≡ receive now remote_id rest (record c { assemblies = m }))
        × After stream_id
            (record { buffer = overlay cs a.buffer; received = a.received + total cs })
            c.assemblies
            m
  unfolding receive on_packet send_stream_chunk
  chunks_stored now remote_id stream_id body [] rest c a found e small slices =
      (c.assemblies, refl, record { entry = found ∙ ap some (ground arith); others = refl })
  chunks_stored now remote_id stream_id body ((offset, bytes) ∷ cs) rest c a found e small slices =
      let fits : offset + length bytes ≤ length body = (slices.0).within in
      let fits' : offset + length bytes ≤ length a.buffer = omega arith in
      let a' : Assembly = record {
        buffer = splice offset bytes a.buffer;
        received = a.received + length bytes;
      } in
      let c' : IpcChannel E = record c { assemblies = insert stream_id a' c.assemblies } in
      let found' : lookup stream_id c'.assemblies ≡ some a' =
        lookup-insert stream_id stream_id a' c.assemblies ∙ rw (==_refl stream_id) in
      let (m, run, after) =
        chunks_stored now remote_id stream_id body cs rest c' a' found'
          (length-splice offset bytes a.buffer fits' ∙ e) small slices.1 in
      (
        m,
        rw (chunk_stored stream_id body offset bytes c a found e small fits) run,
        record {
          entry = after.entry ∙ ap some (ground arith);
          others = after.others ∙ erase-insert stream_id a' c.assemblies;
        },
      )

  trailer_delivered :
      (stream_id remote_id : String) (body : Bytes) (c : IpcChannel E) (a : Assembly)
      → lookup stream_id c.assemblies ≡ some a
      → a.buffer ≡ body
      → a.received ≡ length body
      → body ≢ []
      → on_stream_trailer stream_id "" remote_id c
        ≡ write_to_endpoint default_endpoint remote_id body
            (record c { assemblies = erase stream_id c.assemblies })
  unfolding on_stream_trailer
  trailer_delivered stream_id remote_id [] c a found e r ne = absurd (ne refl)
  trailer_delivered stream_id remote_id (b ∷ body) c a found e r ne =
      let finished : finished_body "" a ≡ b ∷ body =
        finished-buffer a (r ∙ ap length (sym e)) ∙ e in
      rw (found, on_stream_trailer, finished)

  -- A chunked stream of a body of at least one byte, and fewer than 2^64, that arrives header
  -- first, trailer last and its chunks in any order writes the body once to the default endpoint and
  -- leaves no assembly of its own behind; the other assemblies stay.
  pub stream_delivered :
      (now : ℕ) (remote_id stream_id request_id mime_type : String) (body : Bytes)
      (c : IpcChannel E) (ds cs : List Chunk)
      → body ≢ []
      → length body < word
      → Tiles body 0 ds
      → Permᴰ ds cs
      → receive now remote_id
          (send_stream_header request_id stream_id mime_type (length body)
            ∷ (map (chunk_packet stream_id) cs ++ send_stream_trailer stream_id "" ∷ []))
          c
        ≡ ok (
            write_to_endpoint default_endpoint remote_id body
              (record c { assemblies = erase stream_id c.assemblies }))
  unfolding receive on_packet on_stream_header send_stream_header send_stream_trailer
  stream_delivered now remote_id stream_id request_id mime_type body c ds cs ne small tiles perm =
      let a : Assembly = record { buffer = replicate (length body) 0; received = 0 } in
      let c' : IpcChannel E = record c { assemblies = insert stream_id a c.assemblies } in
      let e : length a.buffer ≡ length body = length-replicate (length body) 0 in
      let (slices, whole, counted) = Permᴰ-overlay cs a.buffer tiles perm e in
      let (m, run, after) =
        chunks_stored now remote_id stream_id body cs (send_stream_trailer stream_id "" ∷ []) c' a
          (lookup-insert stream_id stream_id a c.assemblies ∙ rw (==_refl stream_id)) e small
          slices in
      let others : erase stream_id m ≡ erase stream_id c.assemblies =
        after.others ∙ erase-insert stream_id a c.assemblies in
      run
      ∙ ap ok (
          trailer_delivered stream_id remote_id body (record c { assemblies = m })
            (record { buffer = overlay cs a.buffer; received = a.received + total cs }) after.entry
            whole (omega arith) ne
          ∙ ap
              (λ (n : List (String × Assembly)).
                write_to_endpoint default_endpoint remote_id body (record c { assemblies = n }))
              others)

  -- What `SendStream` sends of a body of at least one byte and fewer than 2^64, the receiving channel
  -- writes to the default endpoint once and whole.
  pub send_stream-receive :
      (now : ℕ) (remote_id stream_id request_id mime_type : String) (body : Bytes)
      (c : IpcChannel E)
      → body ≢ []
      → length body < word
      → receive now remote_id (send_stream stream_id request_id mime_type body) c
        ≡ ok (
            write_to_endpoint default_endpoint remote_id body
              (record c { assemblies = erase stream_id c.assemblies }))
  send_stream-receive now remote_id stream_id request_id mime_type body c ne small =
      let (cs, sent, tiles, _) = send_stream_lem stream_id request_id mime_type body in
      rw sent (
        stream_delivered now remote_id stream_id request_id mime_type body c cs cs ne small tiles
          (Permᴰ-refl cs))
