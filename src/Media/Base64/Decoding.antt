-- ===== src/Media/Base64/Decoding.antt =====
-- What `ToBase64` of src/recorder/media_query.cpp prints is read back by a decoder.
use pi_webrtc.Prelude.{
  ℕ, zero, suc, ◌+◌, ◌*◌, ◌/◌, ◌%◌, ◌^◌, ◌<◌, ◌≡◌, refl, ap, ap₂, ◌∙◌, Bool, true, false, Option,
  none, some, [], ◌∷◌, ◌++◌, Bytes, All, length, eqb, if◌then◌else◌, ◌&&◌, arith,
}
use pi_webrtc.Media.Base64.{base64_chars, base64_char, emit, encode_loop, pad, to_base64}

abbrev pub AreBytes : Bytes → Type 0
AreBytes bs = All (λ b. b < 256) bs

-- RFC 4648: three bytes are four characters; one or two bytes at the end are two or three, and are padded.
unfoldable pub encode : Bytes → Bytes
encode [] = []
encode (a ∷ []) = base64_char (a / 4) ∷ base64_char (a % 4 * 16) ∷ b'=' ∷ b'=' ∷ []
encode (a ∷ b ∷ []) =
    base64_char (a / 4) ∷ base64_char (a % 4 * 16 + b / 16) ∷ base64_char (b % 16 * 4) ∷ b'=' ∷ []
encode (a ∷ b ∷ c ∷ bs) =
    base64_char (a / 4)
    ∷ base64_char (a % 4 * 16 + b / 16)
    ∷ base64_char (b % 16 * 4 + c / 64)
    ∷ base64_char (c % 64)
    ∷ encode bs

-- The padding behind the characters of a text that is `n` long.
padded : ℕ → Bytes → Bytes
padded n out = out ++ pad 3 (n + length out)

chars :
    {i j : ℕ} {out out' : Bytes} → i ≡ j → out ≡ out' → base64_char i ∷ out ≡ base64_char j ∷ out'
chars e f = ap₂ (λ x y. base64_char x ∷ y) e f

pad-zero : (n : ℕ) → n % 4 ≡ 0 → pad 3 (n + 0) ≡ []
unfolding pad
pad-zero n e = ground arith

pad-two : (n : ℕ) → n % 4 ≡ 0 → pad 3 (n + 2) ≡ b'=' ∷ b'=' ∷ []
unfolding pad
pad-two n e = ground arith

pad-three : (n : ℕ) → n % 4 ≡ 0 → pad 3 (n + 3) ≡ b'=' ∷ []
unfolding pad
pad-three n e = ground arith

loop_encode :
    (bs : Bytes) (v n : ℕ) → AreBytes bs → n % 4 ≡ 0 → padded n (encode_loop v 0 bs) ≡ encode bs
unfolding encode_loop emit encode padded
loop_encode [] v n h e = pad-zero n e
loop_encode (a ∷ []) v n h e = chars (omega arith) (chars (omega arith) (pad-two n e))
loop_encode (a ∷ b ∷ []) v n h e =
    chars (omega arith) (chars (omega arith) (chars (omega arith) (pad-three n e)))
loop_encode (a ∷ b ∷ c ∷ bs) v n h e =
    let v' = (((v * 256 + a) % 2 ^ 32 * 256 + b) % 2 ^ 32 * 256 + c) % 2 ^ 32 in
    chars (omega arith) (
      chars (omega arith) (
        chars (omega arith) (
          chars (omega arith) (
            ap (λ m. encode_loop v' 0 bs ++ pad 3 m) (omega arith)
            ∙ loop_encode bs v' (n + 4) h.1.1.1 (omega arith)))))

-- On bytes, the code prints what RFC 4648 says, group by group.
to_base64-encode : (bs : Bytes) → AreBytes bs → to_base64 bs ≡ encode bs
unfolding to_base64 padded
to_base64-encode bs h =
    ap (λ m. encode_loop 0 0 bs ++ pad 3 m) (omega arith) ∙ loop_encode bs 0 0 h refl

-- The length is four for each group of three bytes that was begun.
length-encode : (bs : Bytes) → length (encode bs) ≡ 4 * ((length bs + 2) / 3)
unfolding encode
length-encode [] = refl
length-encode (a ∷ []) = refl
length-encode (a ∷ b ∷ []) = refl
length-encode (a ∷ b ∷ c ∷ bs) = omega (arith, length-encode bs)

-- The decoder: a character's index, and the bytes of a group of four.
unfoldable pub index_from : ℕ → Bytes → ℕ → Option ℕ
index_from i [] c = none
index_from i (b ∷ bs) c = if eqb b c then some i else index_from (i + 1) bs c

unfoldable pub index_of : ℕ → Option ℕ
unfolding index_from
index_of c = index_from 0 base64_chars c

infixl 5 ◌>>=◌
abbrev pub ◌>>=◌ : {A B : Type 0} → Option A → (A → Option B) → Option B
none >>= f = none
some a >>= f = f a

-- The bytes of the four characters, of which the last or the last two may be padding.
unfoldable pub decode_group : ℕ → ℕ → ℕ → ℕ → Option Bytes
unfolding index_of
decode_group p q r s = do
  i ← index_of p
  j ← index_of q
  if eqb r b'=' then some ((i * 4 + j / 16) ∷ []) else do
    k ← index_of r
    if eqb s b'=' then some ((i * 4 + j / 16) ∷ (j % 16 * 16 + k / 4) ∷ []) else do
      l ← index_of s
      some ((i * 4 + j / 16) ∷ (j % 16 * 16 + k / 4) ∷ (k % 4 * 64 + l) ∷ [])

unfoldable pub decode : Bytes → Option Bytes
unfolding decode_group
decode [] = some []
decode (p ∷ q ∷ r ∷ s ∷ rest) = do
  group ← decode_group p q r s
  bytes ← decode rest
  some (group ++ bytes)
decode _ = none

-- Each index below a bound passes.
first_indices : (ℕ → Bool) → ℕ → Bool
first_indices passes zero = true
first_indices passes (suc bound) = first_indices passes bound && passes bound

first_indices_pass :
    (passes : ℕ → Bool) (bound i : ℕ)
    → i < bound
    → first_indices passes bound ≡ true
    → passes i ≡ true
unfolding first_indices
first_indices_pass passes zero i below h = elim below [ ]
first_indices_pass passes (suc bound) i below h = ground (arith, first_indices_pass passes bound i)

-- A character is found at its index, and is no padding.
is_found : Option ℕ → ℕ → ℕ → Bool
is_found none i c = false
is_found (some j) i c = eqb i j && (if eqb c b'=' then false else true)

table : first_indices (λ i. is_found (index_of (base64_char i)) i (base64_char i)) 64 ≡ true
unfolding first_indices is_found index_of base64_char
table = refl

is_found_lem :
    (o : Option ℕ) (i c : ℕ) → is_found o i c ≡ true → (o ≡ some i) × (eqb c b'=' ≡ false)
unfolding is_found
is_found_lem none i c h = absurd (cc)
is_found_lem (some j) i c h = ground arith

index_of-base64_char :
    (i : ℕ) → i < 64 → (index_of (base64_char i) ≡ some i) × (eqb (base64_char i) b'=' ≡ false)
index_of-base64_char i h =
    is_found_lem (index_of (base64_char i)) i (base64_char i) (first_indices_pass _ 64 i h table)

one_byte :
    (a : ℕ)
    → a < 256
    → decode_group (base64_char (a / 4)) (base64_char (a % 4 * 16)) b'=' b'=' ≡ some (a ∷ [])
unfolding decode_group
one_byte a h =
    let (i, _) = index_of-base64_char (a / 4) (omega arith) in
    let (j, _) = index_of-base64_char (a % 4 * 16) (omega arith) in
    let e : a / 4 * 4 + a % 4 * 16 / 16 ≡ a = omega arith in rw (i, j, e) refl

two_bytes :
    (a b : ℕ)
    → a < 256
    → b < 256
    → decode_group
        (base64_char (a / 4))
        (base64_char (a % 4 * 16 + b / 16))
        (base64_char (b % 16 * 4))
        b'='
      ≡ some (a ∷ b ∷ [])
unfolding decode_group
two_bytes a b h h' =
    let (i, _) = index_of-base64_char (a / 4) (omega arith) in
    let (j, _) = index_of-base64_char (a % 4 * 16 + b / 16) (omega arith) in
    let (k, k') = index_of-base64_char (b % 16 * 4) (omega arith) in
    let e : a / 4 * 4 + (a % 4 * 16 + b / 16) / 16 ≡ a = omega arith in
    let f : (a % 4 * 16 + b / 16) % 16 * 16 + b % 16 * 4 / 4 ≡ b = omega arith in
    rw (i, j, k, k', e, f) refl

three_bytes :
    (a b c : ℕ)
    → a < 256
    → b < 256
    → c < 256
    → decode_group
        (base64_char (a / 4))
        (base64_char (a % 4 * 16 + b / 16))
        (base64_char (b % 16 * 4 + c / 64))
        (base64_char (c % 64))
      ≡ some (a ∷ b ∷ c ∷ [])
unfolding decode_group
three_bytes a b c h h' h'' =
    let (i, _) = index_of-base64_char (a / 4) (omega arith) in
    let (j, _) = index_of-base64_char (a % 4 * 16 + b / 16) (omega arith) in
    let (k, k') = index_of-base64_char (b % 16 * 4 + c / 64) (omega arith) in
    let (l, l') = index_of-base64_char (c % 64) (omega arith) in
    let e : a / 4 * 4 + (a % 4 * 16 + b / 16) / 16 ≡ a = omega arith in
    let f : (a % 4 * 16 + b / 16) % 16 * 16 + (b % 16 * 4 + c / 64) / 4 ≡ b = omega arith in
    let g : (b % 16 * 4 + c / 64) % 4 * 64 + c % 64 ≡ c = omega arith in
    rw (i, j, k, k', l, l', e, f, g) refl

decode-encode : (bs : Bytes) → AreBytes bs → decode (encode bs) ≡ some bs
unfolding decode encode
decode-encode [] h = refl
decode-encode (a ∷ []) h = rw (one_byte a h.0) refl
decode-encode (a ∷ b ∷ []) h = rw (two_bytes a b h.0 h.1.0) refl
decode-encode (a ∷ b ∷ c ∷ bs) h =
    rw (three_bytes a b c h.0 h.1.0 h.1.1.0, decode-encode bs h.1.1.1) refl

-- A text of bytes that is printed in Base64 is read back, and its length is four for each group of three bytes
-- that was begun, although `val` wraps around.
pub decode-to_base64 :
    (bs : Bytes)
    → AreBytes bs
    → (decode (to_base64 bs) ≡ some bs) × (length (to_base64 bs) ≡ 4 * ((length bs + 2) / 3))
decode-to_base64 bs h = rw (to_base64-encode bs h) (decode-encode bs h, length-encode bs)
