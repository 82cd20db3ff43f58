-- ===== src/Channel/Ipc/Reassembly.antt =====
-- A chunked stream is put together again by `IpcChannel`, whatever the order of its chunks.
use mathlib.Core.List.{Permᴰ}
use pi_webrtc.Prelude.{
  ℕ, ◌+◌, ◌-◌, ◌≤◌, ◌<◌, ◌≡◌, refl, sym, ap, subst, ◌∙◌, Bytes, Bool, true, false, List, [], ◌∷◌,
  length, take, drop, splice, All, get_elem?, get_elem?_ext, get_elem?-splice, length-splice,
  length-take, length-drop, get_elem?-take, get_elem?-drop, ltb, leb, lt→ltb, if◌then◌else◌, ◌&&◌,
  ◌||◌, string_eq, arith,
}
use pi_webrtc.Channel.Stream.Chunks.{Chunk, Tiles, done, next}

-- The bytes written by chunks over a buffer.
abbrev pub overlay : List Chunk → Bytes → Bytes
overlay [] buffer = buffer
overlay ((offset, bytes) ∷ cs) buffer = overlay cs (splice offset bytes buffer)

abbrev pub total : List Chunk → ℕ
total [] = 0
total ((offset, bytes) ∷ cs) = length bytes + total cs

-- The chunk holds what stands at its offset in `body`.
pub record IsSlice (body : Bytes) (c : Chunk) : Type 0 where
  pub within : c.0 + length c.1 ≤ length body
  pub agrees : (i : ℕ) → i < length c.1 → get_elem? c.1 i ≡ get_elem? body (c.0 + i)

abbrev pub covers : ℕ → Chunk → Bool
covers i (offset, bytes) = leb offset i && ltb i (offset + length bytes)

abbrev pub covered : ℕ → List Chunk → Bool
covered i [] = false
covered i (c ∷ cs) = covers i c || covered i cs

overlay-length :
    (body : Bytes) (cs : List Chunk) (buffer : Bytes)
    → All (IsSlice body) cs
    → length buffer ≡ length body
    → length (overlay cs buffer) ≡ length body
overlay-length body [] buffer a e = e
overlay-length body ((offset, bytes) ∷ cs) buffer a e =
    overlay-length body cs (splice offset bytes buffer) a.1
      (length-splice offset bytes buffer (omega (arith, (a.0).within)) ∙ e)

slice-get_elem? :
    {body : Bytes} (offset : ℕ) (bytes : Bytes) (i : ℕ)
    → IsSlice body (offset, bytes)
    → covers i (offset, bytes) ≡ true
    → get_elem? bytes (i - offset) ≡ get_elem? body i
slice-get_elem? {body} offset bytes i s h =
    let at : offset + (i - offset) ≡ i = ground arith in
    s.agrees (i - offset) (ground arith) ∙ ap (get_elem? body) at

overlay-get_elem? :
    (body : Bytes) (cs : List Chunk) (buffer : Bytes) (i : ℕ)
    → All (IsSlice body) cs
    → length buffer ≡ length body
    → get_elem? (overlay cs buffer) i
      ≡ (if covered i cs then get_elem? body i else get_elem? buffer i)
overlay-get_elem? body [] buffer i a e = refl
overlay-get_elem? body ((offset, bytes) ∷ cs) buffer i a e =
    let fits : offset + length bytes ≤ length buffer = omega (arith, (a.0).within) in
    overlay-get_elem? body cs (splice offset bytes buffer) i a.1
      (length-splice offset bytes buffer fits ∙ e)
    ∙ ground
        (arith, get_elem?-splice offset bytes buffer i fits, slice-get_elem? offset bytes i a.0)

-- Chunks that are slices of the body and cover it leave the body, whatever the buffer held.
overlay-body :
    (body : Bytes) (cs : List Chunk) (buffer : Bytes)
    → All (IsSlice body) cs
    → ((i : ℕ) → i < length body → covered i cs ≡ true)
    → length buffer ≡ length body
    → overlay cs buffer ≡ body
overlay-body body cs buffer a cover e =
    get_elem?_ext (overlay cs buffer) body (overlay-length body cs buffer a e)
      (λ i h. overlay-get_elem? body cs buffer i a e ∙ rw (cover i h))

take-IsSlice :
    (body : Bytes) (offset n : ℕ)
    → offset + n ≤ length body
    → IsSlice body (offset, take n (drop offset body))
take-IsSlice body offset n h = record {
  within = omega (arith, length-take n (drop offset body), length-drop offset body);
  agrees = λ i l.
      get_elem?-take n (drop offset body) i
      ∙ rw (lt→ltb i n (omega (arith, l, length-take n (drop offset body))))
          (get_elem?-drop offset body i);
}

Tiles-slices :
    {body : Bytes} {offset : ℕ} {cs : List Chunk} → Tiles body offset cs → All (IsSlice body) cs
Tiles-slices (done e) = tt
Tiles-slices {body} {offset} (next n p q r t) = (take-IsSlice body offset n r, Tiles-slices t)

Tiles-total :
    {body : Bytes} {offset : ℕ} {cs : List Chunk}
    → Tiles body offset cs
    → offset + total cs ≡ length body
Tiles-total (done e) = omega arith
Tiles-total {body} {offset} (next n p q r t) =
    omega (arith, Tiles-total t, length-take n (drop offset body), length-drop offset body)

Tiles-covered :
    {body : Bytes} {offset : ℕ} {cs : List Chunk} (i : ℕ)
    → Tiles body offset cs
    → offset ≤ i
    → i < length body
    → covered i cs ≡ true
Tiles-covered i (done e) l h = absurd (omega arith)
Tiles-covered {body} {offset} i (next n p q r t) l h =
    ground (arith, Tiles-covered i t, length-take n (drop offset body), length-drop offset body)

Permᴰ-total : {cs ds : List Chunk} → Permᴰ cs ds → total cs ≡ total ds
Permᴰ-total Permᴰ.nil = refl
Permᴰ-total (Permᴰ.cons e d) = omega (arith, ap (λ (c : Chunk). length c.1) e, Permᴰ-total d)
Permᴰ-total (Permᴰ.swap e f) =
    omega (arith, ap (λ (c : Chunk). length c.1) e, ap (λ (c : Chunk). length c.1) f)
Permᴰ-total (Permᴰ.trans d e) = Permᴰ-total d ∙ Permᴰ-total e

Permᴰ-covered : {cs ds : List Chunk} (i : ℕ) → Permᴰ cs ds → covered i cs ≡ covered i ds
Permᴰ-covered i Permᴰ.nil = refl
Permᴰ-covered i (Permᴰ.cons e d) = cc (ap (covers i) e, Permᴰ-covered i d)
Permᴰ-covered i (Permᴰ.swap e f) = ground (arith, ap (covers i) e, ap (covers i) f)
Permᴰ-covered i (Permᴰ.trans d e) = Permᴰ-covered i d ∙ Permᴰ-covered i e

Permᴰ-slices :
    (body : Bytes) {cs ds : List Chunk}
    → Permᴰ cs ds
    → All (IsSlice body) cs
    → All (IsSlice body) ds
Permᴰ-slices body Permᴰ.nil a = tt
Permᴰ-slices body (Permᴰ.cons e d) a = (subst (IsSlice body) e a.0, Permᴰ-slices body d a.1)
Permᴰ-slices body (Permᴰ.swap e f) a =
    (subst (IsSlice body) f (a.1).0, (subst (IsSlice body) e a.0, (a.1).1))
Permᴰ-slices body (Permᴰ.trans d e) a = Permᴰ-slices body e (Permᴰ-slices body d a)

-- Any order of the tiles leaves the body in the buffer, and counts as many bytes as it has.
pub Permᴰ-overlay :
    {body : Bytes} {ds : List Chunk} (cs : List Chunk) (buffer : Bytes)
    → Tiles body 0 ds
    → Permᴰ ds cs
    → length buffer ≡ length body
    → All (IsSlice body) cs × (overlay cs buffer ≡ body) × (total cs ≡ length body)
Permᴰ-overlay {body} cs buffer t p e =
    let slices = Permᴰ-slices body p (Tiles-slices t) in
    (
      slices,
      overlay-body body cs buffer slices
          (λ i h. sym (Permᴰ-covered i p) ∙ Tiles-covered i t (omega arith) h) e,
      omega (arith, Tiles-total t, Permᴰ-total p),
    )
