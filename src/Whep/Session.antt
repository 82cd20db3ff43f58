-- ===== src/Whep/Session.antt =====
-- `HttpSession` of src/signaling/whep_service.cpp: one request and its answer. What the service and the peer answer on the
-- way are arguments; responses, and what is asked of the service and the peer, are a step's results.
use pi_webrtc.Prelude.{
  ℕ, Bool, true, false, not, ◌&&◌, Option, none, some, List, [], ◌∷◌, ◌++◌, Bytes, if◌then◌else◌,
  codes, ◌==◌, bytes_eq,
}
use pi_webrtc.Whep.Target.{WhepTarget, invalid, endpoint, session, parse, location_of}
use pi_webrtc.Whep.Sdp.{
  media_type_of, entity_tag_of, ice_fragment_of, Candidate, IceCandidates, parse_candidates,
}

pub data Verb : Type 0 where
  post get head patch delete options other : Verb

-- A header that is not there is `none`.
pub record Request : Type 0 where
  pub verb : Verb
  pub target : Bytes
  pub content_type : Option Bytes
  pub if_match : Option Bytes
  pub has_private_network : Bool
  pub body : Bytes

-- A response by its status, and the headers and the body that differ between responses.
pub record Response : Type 0 where
  pub status : ℕ
  pub content_type : Bytes
  pub location : Bytes
  pub etag : Bytes
  pub link : Bytes
  pub allow : Bytes
  pub accept_post : Bytes
  pub allows_private_network : Bool
  pub body : Bytes

-- What the local description is awaited for.
pub data Await : Type 0 where
  creation : Bytes → Await
  restart : Await

pub record HttpSession : Type 0 where
  pub awaits : Option Await
  pub answer_timer : Bool
  pub responded : Bool

pub data Action : Type 0 where
  writes_response : Response → Action
  creates_peer removes_peer : Bytes → Action
  sets_remote_sdp : Bytes → Action
  restarts_ice : Bytes → Bytes → Action
  sets_remote_ice : Candidate → Action

-- `ResolveStream`, `CreatePeer` with the new peer's id, whether `GetPeer` finds the session's peer, its local
-- description, and whether `RestartIce` succeeds.
pub record Answers : Type 0 where
  pub resolve_stream : Bytes → Option Bytes
  pub create_peer : Option Bytes
  pub get_peer : Bytes → Bool
  pub local_sdp : Bytes
  pub restart_ice : Bool

abbrev pub Did : Type 0
Did = HttpSession × List Action

abbrev pub header : Option Bytes → Bytes
header none = []
header (some value) = value

abbrev pub plain : ℕ → Response
plain status = record {
  status = status;
  content_type = [];
  location = [];
  etag = [];
  link = [];
  allow = [];
  accept_post = [];
  allows_private_network = false;
  body = [];
}

unfoldable pub send : Response → HttpSession → Did
send res s = (record s { responded = true; answer_timer = false }, writes_response res ∷ [])

unfoldable pub respond_error : ℕ → Bytes → HttpSession → Did
unfolding send
respond_error status message s =
    send (record (plain status) { content_type = codes "text/plain"; body = message }) s

abbrev pub is_session : WhepTarget → Bool
is_session (session peer_id) = true
is_session _ = false

abbrev pub is_endpoint : WhepTarget → Bool
is_endpoint (endpoint stream) = true
is_endpoint _ = false

unfoldable pub respond_method_not_allowed : WhepTarget → HttpSession → Did
unfolding send
respond_method_not_allowed target s =
    send
      (record (plain 405) {
        allow =
            if is_session target
            then codes "OPTIONS, GET, HEAD, PATCH, DELETE"
            else codes "OPTIONS, GET, HEAD, POST";
        content_type = codes "text/plain";
        body = codes "This method is not allowed on this path.";
      })
      s

unfoldable pub respond_created : Bytes → Bytes → HttpSession → Did
unfolding send
respond_created peer_id sdp s =
    send
      (record (plain 201) {
        content_type = codes "application/sdp";
        location = location_of peer_id;
        etag = entity_tag_of sdp;
        body = sdp;
      })
      s

unfoldable pub respond_ice_restarted : Bytes → HttpSession → Did
unfolding send
respond_ice_restarted sdp s =
    send
      (record (plain 200) {
        content_type = codes "application/trickle-ice-sdpfrag";
        etag = entity_tag_of sdp;
        body = ice_fragment_of sdp;
      })
      s

-- The callback and the timer of `AwaitLocalSdp` are set.
abbrev pub await_local_sdp : Await → HttpSession → HttpSession
await_local_sdp await s = record s { awaits = some await; answer_timer = true }

abbrev pub all_set : List Candidate → List Action
all_set [] = []
all_set (candidate ∷ candidates) = sets_remote_ice candidate ∷ all_set candidates

abbrev pub prepend : List Action → Did → Did
prepend actions d = (d.0, actions ++ d.1)

abbrev pub post_created : Option Bytes → Request → HttpSession → Did
post_created none req s = respond_error 500 (codes "Failed to create the peer connection.") s
post_created (some peer_id) req s =
    (await_local_sdp (creation peer_id) s, creates_peer peer_id ∷ sets_remote_sdp req.body ∷ [])

unfoldable pub handle_post_request : Answers → Request → HttpSession → Did
unfolding respond_error media_type_of
handle_post_request a req s =
    if not (media_type_of (header req.content_type) == codes "application/sdp")
    then respond_error 415 (codes "The offer must be sent with Content-Type `application/sdp`.") s
    else post_created a.create_peer req s

-- The restart of ICE that `If-Match: *` asks for.
unfoldable pub handle_restart : Answers → IceCandidates → HttpSession → Did
unfolding respond_error
handle_restart a group s =
    let s' = await_local_sdp restart s in
    prepend (restarts_ice group.ice_ufrag group.ice_pwd ∷ []) (
      if not a.restart_ice
      then respond_error 422 (codes "The ICE restart failed.") s'
      else (s', all_set group.candidates))

abbrev pub patch_matched : Answers → Option Bytes → IceCandidates → HttpSession → Did
patch_matched a none group s =
    respond_error 428
      (codes "PATCH requires an If-Match header with the session's ETag, or `*` to restart ICE.") s
patch_matched a (some if_match) group s =
    if if_match == codes "*"
    then handle_restart a group s
    else if not (if_match == entity_tag_of a.local_sdp)
    then respond_error 412 (codes "If-Match does not name this session's current ICE session.") s
    else prepend (all_set group.candidates) (send (plain 204) s)

unfoldable pub handle_patch_request : Answers → Request → HttpSession → Did
unfolding respond_error handle_restart send
handle_patch_request a req s =
    let content_type = media_type_of (header req.content_type) in
    if content_type == codes "application/sdp"
    then respond_error 422
        (codes "This session sent no counter-offer, so it expects no SDP answer.") s
    else if not (content_type == codes "application/trickle-ice-sdpfrag")
    then respond_error 415
        (codes "ICE updates must be sent with Content-Type `application/trickle-ice-sdpfrag`.") s
    else patch_matched a req.if_match (parse_candidates req.body) s

unfoldable pub handle_delete_request : Bytes → HttpSession → Did
unfolding send
handle_delete_request peer_id s = prepend (removes_peer peer_id ∷ []) (send (plain 200) s)

-- The headers that are the same in each answer to OPTIONS are left out.
unfoldable pub handle_options_request : WhepTarget → Request → HttpSession → Did
unfolding send
handle_options_request target req s =
    send
      (record (plain 200) {
        accept_post = if is_endpoint target then codes "application/sdp" else [];
        allows_private_network = req.has_private_network;
      })
      s

-- The answer to GET and HEAD at an endpoint.
abbrev pub endpoint_found : Response
endpoint_found = record (plain 200) {
  content_type = codes "application/sdp";
  link = codes "<urn:ietf:params:whep>; rel=\"profile\"";
}

abbrev pub at_endpoint : Verb → Bytes → Answers → Request → HttpSession → Did
at_endpoint post stream a req s = handle_post_request a req s
at_endpoint get stream a req s = send endpoint_found s
at_endpoint head stream a req s = send endpoint_found s
at_endpoint _ stream a req s = respond_method_not_allowed (endpoint stream) s

abbrev pub published : Option Bytes → Bytes → Answers → Request → HttpSession → Did
published none stream a req s = respond_error 404 (codes "No camera is published at this path.") s
published (some camera_alias) stream a req s = at_endpoint req.verb stream a req s

unfoldable pub handle_endpoint_request : Bytes → Answers → Request → HttpSession → Did
unfolding respond_error respond_method_not_allowed send handle_post_request
handle_endpoint_request stream a req s = published (a.resolve_stream stream) stream a req s

abbrev pub at_session : Verb → Bytes → Answers → Request → HttpSession → Did
at_session patch peer_id a req s = handle_patch_request a req s
at_session delete peer_id a req s = handle_delete_request peer_id s
at_session get peer_id a req s = send (plain 204) s
at_session head peer_id a req s = send (plain 204) s
at_session _ peer_id a req s = respond_method_not_allowed (session peer_id) s

unfoldable pub handle_session_request : Bytes → Answers → Request → HttpSession → Did
unfolding respond_error respond_method_not_allowed send handle_patch_request handle_delete_request
handle_session_request peer_id a req s =
    if not (a.get_peer peer_id)
    then respond_error 404 (codes "The WHEP session does not exist.") s
    else at_session req.verb peer_id a req s

abbrev pub route : WhepTarget → Answers → Request → HttpSession → Did
route (endpoint stream) a req s = handle_endpoint_request stream a req s
route (session peer_id) a req s = handle_session_request peer_id a req s
route invalid a req s = respond_error 404 (codes "No WHEP resource at this path.") s

abbrev pub is_options : Verb → Bool
is_options options = true
is_options _ = false

unfoldable pub handle_request : Answers → Request → HttpSession → Did
unfolding handle_options_request handle_endpoint_request handle_session_request respond_error parse
handle_request a req s =
    if is_options req.verb
    then handle_options_request (parse req.target) req s
    else route (parse req.target) a req s

-- The posted end of the callback: the session has not responded yet.
abbrev pub answer_awaited : Option Await → Bytes → HttpSession → Did
answer_awaited none sdp s = (s, [])
answer_awaited (some (creation peer_id)) sdp s = respond_created peer_id sdp s
answer_awaited (some restart) sdp s = respond_ice_restarted sdp s

abbrev pub time_out : Option Await → HttpSession → Did
time_out none s = (s, [])
time_out (some (creation peer_id)) s =
    prepend (removes_peer peer_id ∷ [])
      (respond_error 503 (codes "Timed out creating the SDP answer for this offer.") s)
time_out (some restart) s =
    respond_error 503 (codes "Timed out creating the answer for this ICE restart.") s

-- A local description of the peer, or the timer's end, with whether it was cancelled.
pub data Event : Type 0 where
  local_sdp : Bytes → Event
  timer_ends : Bool → Event

unfoldable pub step : Event → HttpSession → Did
unfolding respond_created respond_ice_restarted respond_error
step (local_sdp sdp) s = if not s.responded then answer_awaited s.awaits sdp s else (s, [])
step (timer_ends cancelled) s =
    if not cancelled && not s.responded then time_out s.awaits s else (s, [])

unfoldable pub run : List Event → HttpSession → Did
unfolding step
run [] s = (s, [])
run (e ∷ es) s =
    let (s', actions) = step e s in let (s'', actions') = run es s' in (s'', actions ++ actions')

abbrev pub create : HttpSession
create = record { awaits = none; answer_timer = false; responded = false }
