-- ===== src/Media/Base64.antt =====
-- `ToBase64` of src/recorder/media_query.cpp. `val` is an `int`, kept as its 32 bits; `valb` starts at -6, and is kept
-- as `valb + 6`.
pub mod Decoding
use pi_webrtc.Prelude.{
  ℕ, zero, suc, ◌+◌, ◌-◌, ◌*◌, ◌/◌, ◌%◌, ◌^◌, Bool, true, false, Option, none, some, List, [], ◌∷◌,
  ◌++◌, Bytes, length, leb, ltb, eqb, if◌then◌else◌, codes,
}

abbrev pub base64_chars : Bytes
base64_chars = codes "ABCDEFGHIJKLMNOPQRSTUVWXYZabcdefghijklmnopqrstuvwxyz0123456789+/"

-- `base64_chars[i]`, for an index below 64.
abbrev pub char_at : ℕ → Bytes → ℕ
char_at i [] = 0
char_at zero (b ∷ bs) = b
char_at (suc i) (b ∷ bs) = char_at i bs

unfoldable pub base64_char : ℕ → ℕ
base64_char i = char_at i base64_chars

-- The `while` over `valb`, which goes down by 6 in each round. What is left of it, and what it put out.
unfoldable pub emit : ℕ → ℕ → ℕ → Bytes × ℕ
emit zero val k = ([], k)
emit (suc fuel) val k =
    let (out, rest) = emit fuel val (k - 6) in
    if leb 6 k then (base64_char (val / 2 ^ (k - 6) % 64) ∷ out, rest) else ([], k)

-- The `for` over the bytes, with the group that is left at its end.
unfoldable pub encode_loop : ℕ → ℕ → Bytes → Bytes
unfolding emit
encode_loop val k [] =
    if ltb 0 k then base64_char (val * 256 % 2 ^ 32 / 2 ^ (k + 2) % 64) ∷ [] else []
encode_loop val k (c ∷ binary) =
    let val' = (val * 256 + c) % 2 ^ 32 in
    let (out, k') = emit 2 val' (k + 8) in out ++ encode_loop val' k' binary

-- `=` up to a length that 4 divides; `n` is the length so far.
unfoldable pub pad : ℕ → ℕ → Bytes
pad zero n = []
pad (suc fuel) n = let rest = pad fuel (n + 1) in if eqb (n % 4) 0 then [] else b'=' ∷ rest

unfoldable pub to_base64 : Bytes → Bytes
unfolding encode_loop pad
to_base64 binary = let out = encode_loop 0 0 binary in out ++ pad 3 (length out)
