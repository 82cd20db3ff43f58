-- ===== src/Whep/Target.antt =====
-- `WhepTarget::Parse` of src/signaling/whep_service.cpp, and the location that a session is given.
use pi_webrtc.Prelude.{
  ℕ, ◌≡◌, ◌≢◌, refl, sym, ap, ◌∙◌, false, not, List, [], ◌∷◌, ◌++◌, Bytes, All, is_empty, eqb,
  if◌then◌else◌, codes, append-nil, append_assoc, ◌==◌, bytes_eq,
}

-- A text up to a byte.
abbrev pub up_to : ℕ → Bytes → Bytes
up_to c [] = []
up_to c (b ∷ bs) = if eqb b c then [] else b ∷ up_to c bs

abbrev pub keep_segment : Bytes → List Bytes → List Bytes
keep_segment segment segments = if is_empty segment then segments else segment ∷ segments

-- The loop of `getline` over the slashes, which drops empty segments; `acc` is what was read of this one.
unfoldable pub segments_from : Bytes → Bytes → List Bytes
segments_from acc [] = keep_segment acc []
segments_from acc (b ∷ bs) =
    let fresh = segments_from [] bs in
    let longer = segments_from (acc ++ b ∷ []) bs in
    if eqb b b'/' then keep_segment acc fresh else longer

pub data WhepTarget : Type 0 where
  invalid : WhepTarget
  endpoint session : Bytes → WhepTarget

abbrev pub session_segment : Bytes
session_segment = codes "sessions"

abbrev pub target_of : List Bytes → WhepTarget
target_of [] = endpoint []
target_of (a ∷ []) = if not (a == session_segment) then endpoint a else invalid
target_of (a ∷ b ∷ []) = if a == session_segment then session b else invalid
target_of (a ∷ b ∷ c ∷ segments) = invalid

unfoldable pub parse : Bytes → WhepTarget
unfolding segments_from
parse target = target_of (segments_from [] (up_to b'?' target))

-- The location in the answer of `RespondCreated`.
abbrev pub location_of : Bytes → Bytes
location_of peer_id = codes "/" ++ (session_segment ++ (codes "/" ++ peer_id))

-- The text has none of the two bytes that a path gives a meaning.
abbrev pub Plain : Bytes → Type 0
Plain bs = All (λ b. (eqb b b'/' ≡ false) × (eqb b b'?' ≡ false)) bs

up_to-Plain : (bs : Bytes) → Plain bs → up_to b'?' bs ≡ bs
up_to-Plain [] h = refl
up_to-Plain (b ∷ bs) h = rw h.0.1 (ap (◌∷◌ b) (up_to-Plain bs h.1))

segments-Plain : (acc bs : Bytes) → Plain bs → segments_from acc bs ≡ keep_segment (acc ++ bs) []
unfolding segments_from
segments-Plain acc [] h = ap (λ x. keep_segment x []) (sym (append-nil acc))
segments-Plain acc (b ∷ bs) h = rw h.0.0 (
    segments-Plain (acc ++ b ∷ []) bs h.1
    ∙ ap (λ x. keep_segment x []) (append_assoc acc (b ∷ []) bs))

up_to-query : (bs query : Bytes) → Plain bs → up_to b'?' (bs ++ b'?' ∷ query) ≡ bs
up_to-query [] query h = refl
up_to-query (b ∷ bs) query h = rw h.0.1 (ap (◌∷◌ b) (up_to-query bs query h.1))

one_segment : (bs : Bytes) → bs ≢ [] → Plain bs → segments_from [] bs ≡ bs ∷ []
one_segment [] some_byte h = absurd (some_byte refl)
one_segment (b ∷ bs) some_byte h = segments-Plain [] (b ∷ bs) h

-- A client that asks for the location of its session, with a query or without, gets to the session of that peer.
pub parse-location_of :
    (peer_id query : Bytes)
    → peer_id ≢ []
    → Plain peer_id
    → (parse (location_of peer_id) ≡ session peer_id)
      × (parse (location_of peer_id ++ b'?' ∷ query) ≡ session peer_id)
unfolding parse segments_from
parse-location_of peer_id query some_id plain =
    let session_at = λ (rest : Bytes). target_of (session_segment ∷ segments_from [] rest) in
    let there : session_at peer_id ≡ session peer_id =
      ap (λ l. target_of (session_segment ∷ l)) (one_segment peer_id some_id plain) in
    (
      ap session_at (up_to-Plain peer_id plain) ∙ there,
      ap session_at (up_to-query peer_id query plain) ∙ there,
    )
