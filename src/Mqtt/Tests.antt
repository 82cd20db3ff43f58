-- ===== src/Mqtt/Tests.antt =====
-- Runs of the MQTT service's model, and the theorems at them.
use pi_webrtc.Prelude.{
  ℕ, ◌≡◌, refl, String, Bool, true, false, none, some, List, [], ◌∷◌, Bytes, codes, bytes_eqb_iff,
  ==_iff, string_eq, arith,
}
use pi_webrtc.Mqtt.Topic.{
  offer, answer, ice, get_topic, find_topic_type, find_client_id, find_client_id-get_topic,
}
use pi_webrtc.Mqtt.Service.{
  Mqtt, Json, Event, messages, publishes, on_message, on_local_ice, on_peer_expired, run,
}
use pi_webrtc.Mqtt.Mapping.{Forgets, IsMirrored, on_peer_expired-Forgets, run-IsMirrored}
use pi_webrtc.Mqtt.Routing.{on_message-answers}

-- Each payload is an offer with no media.
abbrev json : Json
json = record {
  parse_sdp = λ payload. some (payload, codes "offer");
  parse_ice = λ payload. none;
  print_sdp = λ type sdp. sdp;
  print_ice = λ mid index candidate. candidate;
}

abbrev idle : Mqtt
idle = record {
  uid = codes "cam";
  has_connection = true;
  client_id_to_peer_id = [];
  peer_id_to_client_id = [];
  registry = record {
    peers = [];
    stopped = false;
    expiry_pending = false;
    cleaner = none;
    reports = true;
  };
}

abbrev nobody : ℕ → Bool
nobody peer = false

find_client_id-get_topic_example :
    (find_topic_type (codes "a/b") (get_topic (codes "a/b") answer (codes "x1")) ≡ answer)
    × (find_client_id (codes "a/b") (get_topic (codes "a/b") answer (codes "x1")) ≡ codes "x1")
find_client_id-get_topic_example =
    find_client_id-get_topic (codes "a/b") (codes "x1") answer (λ e. cc) (refl, (refl, tt))
      (λ e. cc)

-- A client that came to the peer q after the peer p.
abbrev moved_on : Mqtt
moved_on = record idle {
  client_id_to_peer_id = (codes "x", "q") ∷ [];
  peer_id_to_client_id = ("p", codes "x") ∷ ("q", codes "x") ∷ [];
}

moved_on-IsMirrored : IsMirrored moved_on
moved_on-IsMirrored c p e = ground (
  arith,
  bytes_eqb_iff (codes "x") c,
  ==_iff {K = String} "q" p,
  ==_iff {K = String} "p" p,
  ==_iff {K = String} "p" "q",
)

on_peer_expired-Forgets_example :
    Forgets "p" moved_on (on_peer_expired "p" moved_on) × IsMirrored (on_peer_expired "p" moved_on)
on_peer_expired-Forgets_example = on_peer_expired-Forgets "p" moved_on moved_on-IsMirrored

abbrev greeting : List Event
greeting =
    messages nobody (some (7, "p")) (codes "cam/offer/x") (some (codes "hello"))
    ∷ messages nobody (some (8, "q")) (codes "cam/ice/y") (some (codes "hello"))
    ∷ []

run-IsMirrored_example : IsMirrored (run json greeting idle)
unfolding run find_topic_type find_client_id
run-IsMirrored_example = run-IsMirrored json greeting idle (refl, (refl, tt)) (λ c p e. cc)

-- The second client comes, and its peer finds ICE.
on_message-answers_example :
    let s' =
      (on_message json nobody
        (some (7, "p"))
        (get_topic (codes "cam") offer (codes "x"))
        (some (codes "hello"))
        idle).0 in
    (topic : Bytes) × ((on_local_ice json "p" (codes "0") 0 (codes "c") (
        run json
          (messages nobody (some (8, "q")) (codes "cam/ice/y") (some (codes "hi")) ∷ [])
          s')).1
      ≡ publishes topic (codes "c") ∷ [])
    × (find_topic_type (codes "cam") topic ≡ ice)
    × (find_client_id (codes "cam") topic ≡ codes "x")
unfolding on_message find_topic_type find_client_id
on_message-answers_example =
    on_message-answers json nobody 7 "p" offer (codes "x") (codes "hello")
      (messages nobody (some (8, "q")) (codes "cam/ice/y") (some (codes "hi")) ∷ []) idle
      (codes "0") 0 (codes "c") (λ e. cc) (refl, tt) (λ e. cc) refl (refl, tt, tt)
