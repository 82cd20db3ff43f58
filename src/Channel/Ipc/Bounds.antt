-- ===== src/Channel/Ipc/Bounds.antt =====
-- `OnStreamChunk` at the edges of the buffer.
use pi_webrtc.Prelude.{
  ℕ, ◌+◌, ◌%◌, ◌≤◌, ◌<◌, ◌≡◌, refl, ◌∙◌, inl, inr, String, Bytes, none, some, length, splice,
  length-splice, ltb, ==_refl, string_eq, Option-cases, Bool-cases, arith,
}
use pi_webrtc.Prelude.Dict.{lookup, insert, lookup-insert, lookup-erase, erase}
use pi_webrtc.Channel.Ipc.{Endpoints, Assembly, IpcChannel, ok, out_of_range, word, on_stream_chunk}

module _ {E : Endpoints} where
  -- A chunk was dropped with its assembly, or ignored for want of one, or it was stored: then
  -- the buffer keeps its length and the count grows by the chunk's bytes.
  pub data Taken (stream_id : String) (bytes : Bytes) (c c' : IpcChannel E) : Type 0 where
    gone : lookup stream_id c'.assemblies ≡ none → Taken stream_id bytes c c'
    kept :
        (a a' : Assembly)
        → lookup stream_id c.assemblies ≡ some a
        → lookup stream_id c'.assemblies ≡ some a'
        → length a'.buffer ≡ length a.buffer
        → a'.received ≡ a.received + length bytes
        → Taken stream_id bytes c c'

  stored_overrun :
      (stream_id : String) (offset : ℕ) (bytes : Bytes) (c : IpcChannel E) (a : Assembly)
      → lookup stream_id c.assemblies ≡ some a
      → offset + length bytes < word
      → length a.buffer < offset + length bytes
      → on_stream_chunk stream_id offset bytes c
        ≡ ok (record c { assemblies = erase stream_id c.assemblies })
  unfolding on_stream_chunk
  stored_overrun stream_id offset bytes c a found small over =
      rw (found, on_stream_chunk) (ground arith)

  stored_within :
      (stream_id : String) (offset : ℕ) (bytes : Bytes) (c : IpcChannel E) (a : Assembly)
      → lookup stream_id c.assemblies ≡ some a
      → offset + length bytes < word
      → offset + length bytes ≤ length a.buffer
      → on_stream_chunk stream_id offset bytes c
        ≡ ok (record c {
          assemblies =
              insert stream_id
                (record {
                  buffer = splice offset bytes a.buffer;
                  received = a.received + length bytes;
                })
                c.assemblies;
        })
  unfolding on_stream_chunk
  stored_within stream_id offset bytes c a found small fits =
      rw (found, on_stream_chunk) (ground arith)

  -- A chunk whose end is below 2^64 never makes `replace` throw, whatever the channel holds: it is
  -- ignored, dropped with its assembly, or stored in a buffer that keeps its length.
  pub on_stream_chunk-Taken :
      (stream_id : String) (offset : ℕ) (bytes : Bytes) (c : IpcChannel E)
      → offset + length bytes < word
      → (c' : IpcChannel E) × (on_stream_chunk stream_id offset bytes c ≡ ok c')
        × Taken stream_id bytes c c'
  unfolding on_stream_chunk
  on_stream_chunk-Taken stream_id offset bytes c small =
      elim (Option-cases (lookup stream_id c.assemblies)) [
        | inl none' ↦ (c, rw (none', on_stream_chunk), gone none')
        | inr (a, found) ↦ elim (Bool-cases (ltb (length a.buffer) (offset + length bytes))) [
          | inl over ↦ (
            _,
            stored_overrun stream_id offset bytes c a found small (ground arith),
            gone (lookup-erase stream_id stream_id c.assemblies ∙ rw (==_refl stream_id)),
          )
          | inr fits ↦ (
            _,
            stored_within stream_id offset bytes c a found small (ground arith),
            kept a _ found
                (lookup-insert stream_id stream_id _ c.assemblies ∙ rw (==_refl stream_id))
                (length-splice offset bytes a.buffer (ground arith)) refl,
          )
        ]
      ]

  -- A chunk of a known stream that starts behind the buffer's end is not caught by the overrun
  -- test where its end wraps round at 2^64 to within the buffer: `replace` then throws.
  pub on_stream_chunk_wraps :
      (stream_id : String) (offset : ℕ) (bytes : Bytes) (c : IpcChannel E) (a : Assembly)
      → lookup stream_id c.assemblies ≡ some a
      → length a.buffer < offset
      → (offset + length bytes) % word ≤ length a.buffer
      → on_stream_chunk stream_id offset bytes c ≡ out_of_range
  unfolding on_stream_chunk
  on_stream_chunk_wraps stream_id offset bytes c a found behind wraps =
      rw (found, on_stream_chunk) (ground arith)
