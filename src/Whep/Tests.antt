-- ===== src/Whep/Tests.antt =====
-- Runs of the WHEP service's model, and the theorems at them.
use pi_webrtc.Prelude.{◌≡◌, refl, true, false, none, some, List, [], ◌∷◌, ◌++◌, Bytes, codes}
use pi_webrtc.Whep.Target.{session, parse, location_of, parse-location_of}
use pi_webrtc.Whep.Sdp.{media_type_of, entity_tag_of}
use pi_webrtc.Whep.Session
use pi_webrtc.Whep.Responses.{responses, request-one_response}

parse-location_of_example :
    (parse (location_of (codes "p1")) ≡ session (codes "p1"))
    × (parse (location_of (codes "p1") ++ b'?' ∷ codes "x") ≡ session (codes "p1"))
parse-location_of_example =
    parse-location_of (codes "p1") (codes "x") (λ e. cc) ((refl, refl), ((refl, refl), tt))

type_of_header : media_type_of (codes " Application/SDP ; charset=x") ≡ codes "application/sdp"
unfolding media_type_of
type_of_header = refl

abbrev local : Bytes
local = codes "v=0" ++ (13 ∷ 10 ∷ codes "a=ice-ufrag:abc") ++ (13 ∷ 10 ∷ codes "m=video")

tag_of_sdp : entity_tag_of local ≡ b'"' ∷ (codes "abc" ++ b'"' ∷ [])
unfolding entity_tag_of
tag_of_sdp = refl

abbrev answers : Session.Answers
answers = record {
  resolve_stream = λ stream. some [];
  create_peer = some (codes "p1");
  get_peer = λ id. false;
  local_sdp = [];
  restart_ice = true;
}

abbrev offer : Session.Request
offer = record {
  verb = Session.Verb.post;
  target = codes "/cam";
  content_type = some (codes "application/sdp");
  if_match = none;
  has_private_network = false;
  body = codes "v=0";
}

-- The answer comes twice, and the timer runs out behind it.
abbrev events : List Session.Event
events =
    Session.Event.timer_ends true
    ∷ Session.Event.local_sdp local
    ∷ Session.Event.local_sdp local
    ∷ Session.Event.timer_ends false
    ∷ []

request-one_response_example :
    responses (
      (Session.handle_request answers offer Session.create).1
      ++ (Session.run events (Session.handle_request answers offer Session.create).0).1)
    ≡ 1
unfolding Session.handle_request
request-one_response_example = request-one_response answers offer events
