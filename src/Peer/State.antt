-- ===== src/Peer/State.antt =====
-- The state of `RtcPeer` in src/rtc/rtc_peer.h, and what its methods do to the world: calls of
-- webrtc's peer connection, tasks that are posted, and calls of the listeners.
use pi_webrtc.Prelude.{ℕ, String, Bool, true, false, Option, none, some, List, ◌++◌, eqb, ◌&&◌}

-- webrtc's enumerations.
pub data SignalingState : Type 0 where
  stable have_local_offer have_local_pranswer have_remote_offer have_remote_pranswer
        signaling_closed :
      SignalingState

pub data ConnectionState : Type 0 where
  fresh connecting connected disconnected failed connection_closed : ConnectionState

pub data GatheringState : Type 0 where
  gathering_new gathering gathering_complete : GatheringState

pub data SdpType : Type 0 where
  offer pranswer answer rollback : SdpType

pub data SignalingBackend : Type 0 where
  direct whep live_kit cloudflare : SignalingBackend

-- A parsed session description: its type and its text with the candidates added so far.
pub record Description : Type 0 where
  pub sdp_type : SdpType
  pub sdp : String

pub record PendingIceCandidate : Type 0 where
  pub sdp_mid : String
  pub sdp_mline_index : ℕ
  pub candidate : String

-- What the peer uses of webrtc's parsers, and the text of a description with one more candidate.
pub record Parsers : Type 0 where
  pub sdp_type_from_string : String → Option SdpType
  pub sdp_type_to_string : SdpType → String
  pub create_session_description : SdpType → String → Option Description
  pub create_ice_candidate : PendingIceCandidate → Bool
  pub add_candidate : PendingIceCandidate → Description → Description

-- `PendingTaskSafetyFlag`: a detached flag by its number, and whether it is alive. A flag that is
-- replaced is dead, so only the last one is kept.
pub record Flag : Type 0 where
  pub number : ℕ
  pub alive : Bool

-- Function fields are whether they are set. `next_flag` numbers the flags.
pub record RtcPeer : Type 0 where
  pub id : String
  pub backend : SignalingBackend
  pub is_publisher : Bool
  pub has_candidates_in_sdp : Bool
  pub needs_renegotiation : Bool
  pub is_connected : Bool
  pub is_expired : Bool
  pub is_terminating : Bool
  pub is_negotiating : Bool
  pub on_expired_fn : Bool
  pub on_connection_state_fn : Bool
  pub on_local_sdp_fn : Bool
  pub on_local_ice_fn : Bool
  pub connect_deadline_safety : Option Flag
  pub sdp_emit_safety : Option Flag
  pub next_flag : ℕ
  pub modified_desc : Option Description
  pub signaling_state : SignalingState
  pub peer_connection : Bool
  pub pending_ice_candidates : List PendingIceCandidate

pub data Action : Type 0 where
  creates_offer creates_answer closes : Action
  posts_deadline : ℕ → Action
  posts_emit : ℕ → Action
  posts_expired : Action
  reports_state : ConnectionState → Action
  sends_sdp : SdpType → String → Action
  sends_ice : PendingIceCandidate → Action
  sets_local : Description → Action
  -- with the offer that is set once the rollback is done
  rolls_back : String → String → Action
  sets_remote : Description → Action
  -- the transceivers by number
  deactivates : ℕ → Action
  adds_candidate : PendingIceCandidate → Action
  -- a call through a null pointer
  null_call : Action

abbrev pub Did : Type 0
Did = RtcPeer × List Action

infixl 5 ◌andthen◌
abbrev pub ◌andthen◌ : Did → (RtcPeer → Did) → Did
(p, done) andthen f = let (q, more) = f p in (q, done ++ more)

-- `alive` of a flag that a task holds.
abbrev pub is_alive : ℕ → Option Flag → Bool
is_alive n none = false
is_alive n (some flag) = eqb flag.number n && flag.alive

abbrev pub set_not_alive : Option Flag → Option Flag
set_not_alive none = none
set_not_alive (some flag) = some (record { number = flag.number; alive = false })

abbrev pub is_local_offer : SignalingState → Bool
is_local_offer have_local_offer = true
is_local_offer _ = false

abbrev pub is_remote_offer : SignalingState → Bool
is_remote_offer have_remote_offer = true
is_remote_offer _ = false

abbrev pub is_stable : SignalingState → Bool
is_stable stable = true
is_stable _ = false

abbrev pub can_renegotiate : SignalingBackend → Bool
can_renegotiate direct = true
can_renegotiate _ = false

abbrev pub is_sfu : SignalingBackend → Bool
is_sfu live_kit = true
is_sfu cloudflare = true
is_sfu _ = false
