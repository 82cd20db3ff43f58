-- ===== src/Whep/Sdp.antt =====
-- The walks over texts of src/signaling/whep_service.cpp: media types, entity tags, lines of SDP, and the ICE
-- fragment that answers a restart.
use pi_webrtc.Prelude.{
  ℕ, ◌+◌, Bool, false, not, ◌&&◌, ◌||◌, List, [], ◌∷◌, ◌++◌, Bytes, drop, is_empty, leb, eqb,
  if◌then◌else◌, codes, starts_with,
}
use pi_webrtc.Whep.Target.{up_to}

abbrev pub is_blank : ℕ → Bool
is_blank b = eqb b b' ' || eqb b 9

abbrev pub skip_blanks : Bytes → Bytes
skip_blanks [] = []
skip_blanks (b ∷ bs) = if is_blank b then skip_blanks bs else b ∷ bs

-- Up to the last byte that is not blank.
abbrev pub cut_blanks : Bytes → Bytes
cut_blanks [] = []
cut_blanks (b ∷ bs) = if is_blank b && is_empty (cut_blanks bs) then [] else b ∷ cut_blanks bs

abbrev pub to_lower : Bytes → Bytes
to_lower [] = []
to_lower (b ∷ bs) = (if leb b'A' b && leb b b'Z' then b + 32 else b) ∷ to_lower bs

unfoldable pub media_type_of : Bytes → Bytes
media_type_of value = to_lower (cut_blanks (skip_blanks (up_to b';' value)))

-- `[^\r\n]+` at the front of a text.
abbrev pub line_part : Bytes → Bytes
line_part [] = []
line_part (b ∷ bs) = if eqb b 13 || eqb b 10 then [] else b ∷ line_part bs

-- The first match of `a=ice-ufrag:([^\r\n]+)`, without what is matched before the group.
abbrev pub find_ufrag : Bytes → Bytes
find_ufrag [] = []
find_ufrag (b ∷ bs) =
    let part = line_part (drop 12 (b ∷ bs)) in
    if starts_with (b ∷ bs) (codes "a=ice-ufrag:") && not (is_empty part)
    then part
    else find_ufrag bs

unfoldable pub entity_tag_of : Bytes → Bytes
entity_tag_of sdp = if is_empty (find_ufrag sdp) then [] else b'"' ∷ (find_ufrag sdp ++ b'"' ∷ [])

-- A line without the carriage return at its end.
abbrev pub pop_return : Bytes → Bytes
pop_return [] = []
pop_return (b ∷ []) = if eqb b 13 then [] else b ∷ []
pop_return (b ∷ c ∷ bs) = b ∷ pop_return (c ∷ bs)

-- The loop of `getline`; `acc` is what was read of this line. A line feed at the end begins no line.
unfoldable pub lines_from : Bytes → Bytes → List Bytes
lines_from acc [] = if is_empty acc then [] else pop_return acc ∷ []
lines_from acc (b ∷ bs) =
    let fresh = lines_from [] bs in
    let longer = lines_from (acc ++ b ∷ []) bs in
    if eqb b 10 then pop_return acc ∷ fresh else longer

unfoldable pub sdp_lines_of : Bytes → List Bytes
unfolding lines_from
sdp_lines_of sdp = lines_from [] sdp

abbrev pub has_prefix : List Bytes → Bytes → Bool
has_prefix [] line = false
has_prefix (p ∷ prefixes) line = starts_with line p || has_prefix prefixes line

abbrev pub session_lines : List Bytes
session_lines = codes "a=ice-lite" ∷ codes "a=ice-options:" ∷ codes "a=group:BUNDLE" ∷ []

abbrev pub media_lines : List Bytes
media_lines =
    codes "a=mid:"
    ∷ codes "a=ice-ufrag:"
    ∷ codes "a=ice-pwd:"
    ∷ codes "a=ice-options:"
    ∷ codes "a=candidate:"
    ∷ codes "a=end-of-candidates"
    ∷ []

abbrev pub crlf : Bytes
crlf = 13 ∷ 10 ∷ []

-- The lines of the session and of its first m-section.
unfoldable pub fragment_from : Bool → List Bytes → Bytes
fragment_from in_media [] = []
fragment_from in_media (line ∷ lines) =
    let is_media = starts_with line (codes "m=") in
    let rest = fragment_from (in_media || is_media) lines in
    if is_media && in_media
    then []
    else if is_media
    then line ++ (crlf ++ rest)
    else if has_prefix (if in_media then media_lines else session_lines) line
    then line ++ (crlf ++ rest)
    else rest

unfoldable pub ice_fragment_of : Bytes → Bytes
unfolding fragment_from sdp_lines_of
ice_fragment_of sdp = fragment_from false (sdp_lines_of sdp)

pub record Candidate : Type 0 where
  pub sdp_mid : Bytes
  pub line : Bytes

pub record IceCandidates : Type 0 where
  pub ice_ufrag : Bytes
  pub ice_pwd : Bytes
  pub candidates : List Candidate

abbrev pub take_line : Bytes → Bytes × IceCandidates → Bytes × IceCandidates
take_line line (mid, result) =
    if starts_with line (codes "a=mid:")
    then (drop 6 line, result)
    else if starts_with line (codes "a=candidate:")
    then (
      mid,
      record result {
        candidates = result.candidates ++ record { sdp_mid = mid; line = drop 2 line } ∷ [];
      },
    )
    else if starts_with line (codes "a=ice-ufrag:")
    then (mid, record result { ice_ufrag = drop 12 line })
    else if starts_with line (codes "a=ice-pwd:")
    then (mid, record result { ice_pwd = drop 10 line })
    else (mid, result)

unfoldable pub parse_lines : List Bytes → Bytes × IceCandidates → IceCandidates
parse_lines [] (mid, result) = result
parse_lines (line ∷ lines) state = parse_lines lines (take_line line state)

unfoldable pub parse_candidates : Bytes → IceCandidates
unfolding parse_lines sdp_lines_of
parse_candidates sdp =
    parse_lines (sdp_lines_of sdp) ([], record { ice_ufrag = []; ice_pwd = []; candidates = [] })
