-- ===== src/Mqtt/Service.antt =====
-- The handlers of `MqttService` in src/signaling/mqtt_service.cpp. The registry of peers is that of `Peers`; the
-- JSON library and the conductor are parameters; what is published, subscribed or asked of a peer, and
-- an exception that leaves the handler, are a step's results.
use pi_webrtc.Prelude.{
  ℕ, String, Bool, false, not, ◌||◌, Option, none, some, List, [], ◌∷◌, ◌++◌, Bytes, is_empty, eqb,
  if◌then◌else◌, codes, starts_with, ◌==◌, Eq, string_eq, bytes_eq,
}
use pi_webrtc.Prelude.Dict.{lookup, insert, erase}
use pi_webrtc.Peers.{PeerRegistry, get, add, stop, cleaner_wait, cleaner_sweep}
use pi_webrtc.Mqtt.Topic.{
  TopicType, offer, answer, ice, unknown, is_unknown, get_topic, find_topic_type, find_client_id,
}

-- Peers are known in the registry by numbers, and by their ids.
pub record Mqtt : Type 0 where
  pub uid : Bytes
  pub has_connection : Bool
  pub client_id_to_peer_id : List (Bytes × String)
  pub peer_id_to_client_id : List (String × Bytes)
  pub registry : PeerRegistry

pub data Action : Type 0 where
  subscribes : Bytes → Action
  publishes : Bytes → Bytes → Action
  ensures_tracks : ℕ → Action
  sets_remote_sdp : ℕ → Bytes → Bytes → Action
  sets_remote_ice : ℕ → Bytes → ℕ → Bytes → Action
  terminates : ℕ → Action
  throws : Action

-- nlohmann::json: what it reads in a payload, `none` where it throws, and what it prints.
pub record Json : Type 0 where
  pub parse_sdp : Bytes → Option (Bytes × Bytes)
  pub parse_ice : Bytes → Option (Bytes × ℕ × Bytes)
  pub print_sdp : Bytes → Bytes → Bytes
  pub print_ice : Bytes → ℕ → Bytes → Bytes

-- `std::string::find` finds the text.
abbrev pub contains_text : Bytes → Bytes → Bool
contains_text s [] = starts_with [] s
contains_text s (b ∷ bs) = starts_with (b ∷ bs) s || contains_text s bs

abbrev pub Did : Type 0
Did = Mqtt × List Action

abbrev pub maps_to : {P : Type 0} ⦃keys : Eq P⦄ → Option P → P → Bool
maps_to none peer_id = false
maps_to (some id) peer_id = id == peer_id

-- `OnPeerExpired` with what it finds under the peer's id.
abbrev pub forget_peer : Option Bytes → String → Mqtt → Mqtt
forget_peer none peer_id s = s
forget_peer (some client_id) peer_id s = record s {
  client_id_to_peer_id =
      if maps_to (lookup client_id s.client_id_to_peer_id) peer_id
      then erase client_id s.client_id_to_peer_id
      else s.client_id_to_peer_id;
  peer_id_to_client_id = erase peer_id s.peer_id_to_client_id;
}

unfoldable pub on_peer_expired : String → Mqtt → Mqtt
on_peer_expired peer_id s = forget_peer (lookup peer_id s.peer_id_to_client_id) peer_id s

unfoldable pub on_peers_expired : List String → Mqtt → Mqtt
unfolding on_peer_expired
on_peers_expired [] s = s
on_peers_expired (id ∷ ids) s = on_peers_expired ids (on_peer_expired id s)

abbrev pub all_terminate : List ℕ → List Action
all_terminate [] = []
all_terminate (peer ∷ peers) = terminates peer ∷ all_terminate peers

unfoldable pub disconnect : Mqtt → Did
disconnect s =
    let (registry, gone) = stop s.registry in
    if not s.has_connection then (record s { registry = registry }, all_terminate gone) else (
      record s {
        has_connection = false;
        registry = registry;
        client_id_to_peer_id = [];
        peer_id_to_client_id = [];
      },
      all_terminate gone,
    )

unfoldable pub on_connect : ℕ → Mqtt → Did
on_connect rc s =
    if eqb rc 0
    then (
      s,
      subscribes (get_topic s.uid offer (codes "+"))
          ∷ subscribes (get_topic s.uid answer (codes "+"))
          ∷ subscribes (get_topic s.uid ice (codes "+"))
          ∷ [],
    )
    else (s, [])

-- The peer that the client has, if it has not expired.
abbrev pub mapped_peer : (ℕ → Bool) → Option String → Mqtt → Option (ℕ × String)
mapped_peer expired none s = none
mapped_peer expired (some id) s =
    if id == ""
    then none
    else elim (get expired id s.registry) [ none ↦ none | some peer ↦ some (peer, id) ]

-- A new peer of a client is entered.
abbrev pub enter : Bytes → ℕ → String → Mqtt → Mqtt
enter client_id peer id s = record s {
  registry = add (some (peer, id)) s.registry;
  client_id_to_peer_id = insert client_id id s.client_id_to_peer_id;
  peer_id_to_client_id = insert id client_id s.peer_id_to_client_id;
}

module _ (J : Json) where
  abbrev pub sends_sdp : Option Bytes → Bytes → Bytes → Mqtt → List Action
  sends_sdp none sdp type s = []
  sends_sdp (some client_id) sdp type s =
      if type == codes "offer"
      then publishes (get_topic s.uid offer client_id) (J.print_sdp type sdp) ∷ []
      else if type == codes "answer"
      then publishes (get_topic s.uid answer client_id) (J.print_sdp type sdp) ∷ []
      else []

  unfoldable pub on_local_sdp : String → Bytes → Bytes → Mqtt → Did
  on_local_sdp peer_id sdp type s =
      (s, sends_sdp (lookup peer_id s.peer_id_to_client_id) sdp type s)

  abbrev pub sends_ice : Option Bytes → Bytes → ℕ → Bytes → Mqtt → List Action
  sends_ice none mid index candidate s = []
  sends_ice (some client_id) mid index candidate s =
      publishes (get_topic s.uid ice client_id) (J.print_ice mid index candidate) ∷ []

  unfoldable pub on_local_ice : String → Bytes → ℕ → Bytes → Mqtt → Did
  on_local_ice peer_id mid index candidate s =
      (s, sends_ice (lookup peer_id s.peer_id_to_client_id) mid index candidate s)

  -- Which peers have expired at the moment of the step.
  module _ (expired : ℕ → Bool) where
    abbrev pub set_sdp : Option (Bytes × Bytes) → Option ℕ → List Action
    set_sdp none peer = throws ∷ []
    set_sdp (some (sdp, type)) none = []
    set_sdp (some (sdp, type)) (some peer) = sets_remote_sdp peer sdp type ∷ []

    unfoldable pub on_remote_sdp : String → Bytes → Mqtt → List Action
    on_remote_sdp peer_id message s = set_sdp (J.parse_sdp message) (get expired peer_id s.registry)

    abbrev pub set_ice : Option (Bytes × ℕ × Bytes) → Option ℕ → List Action
    set_ice none peer = throws ∷ []
    set_ice (some (mid, index, candidate)) none = []
    set_ice (some (mid, index, candidate)) (some peer) =
        sets_remote_ice peer mid index candidate ∷ []

    unfoldable pub on_remote_ice : String → Bytes → Mqtt → List Action
    on_remote_ice peer_id message s = set_ice (J.parse_ice message) (get expired peer_id s.registry)

    -- The end of `OnMessage`, at the peer and its id.
    unfoldable pub dispatch : TopicType → ℕ → String → Bytes → Mqtt → List Action
    unfolding on_remote_sdp on_remote_ice
    dispatch offer peer id payload s =
        (if contains_text (codes "m=video") payload || contains_text (codes "m=audio") payload
          then ensures_tracks peer ∷ []
          else [])
        ++ on_remote_sdp id payload s
    dispatch answer peer id payload s = on_remote_sdp id payload s
    dispatch ice peer id payload s = on_remote_ice id payload s
    dispatch unknown peer id payload s = []

    -- `OnMessage` behind its search for the client's peer. The conductor answers with a new peer, or none.
    abbrev pub with_peer :
        Option (ℕ × String) → Option (ℕ × String) → TopicType → Bytes → Bytes → Mqtt → Did
    with_peer (some (peer, id)) created t client_id payload s = (s, dispatch t peer id payload s)
    with_peer none none t client_id payload s = (s, [])
    with_peer none (some (peer, id)) t client_id payload s =
        let s' = enter client_id peer id s in (s', dispatch t peer id payload s')

    unfoldable pub on_message : Option (ℕ × String) → Bytes → Option Bytes → Mqtt → Did
    unfolding dispatch
    on_message created topic none s = (s, [])
    on_message created topic (some payload) s =
        let t = find_topic_type s.uid topic in
        let client_id = find_client_id s.uid topic in
        if is_unknown t
        then (s, [])
        else if is_empty client_id
        then (s, [])
        else with_peer (mapped_peer expired (lookup client_id s.client_id_to_peer_id) s) created t
            client_id payload s

    -- A round of the registry's cleaner, which reports the peers that it drops.
    unfoldable pub clean : Mqtt → Did
    unfolding on_peers_expired
    clean s =
        let (registry, gone, ids) = cleaner_sweep expired s.registry in
        (on_peers_expired ids (record s { registry = registry }), all_terminate gone)

-- What happens to the service: a message, with the conductor's answer if a peer is asked for and the peers that
-- have expired; what a peer sends; a round of the registry's cleaner, at its wait or behind it.
pub data Event : Type 0 where
  messages : (ℕ → Bool) → Option (ℕ × String) → Bytes → Option Bytes → Event
  local_sdp : String → Bytes → Bytes → Event
  local_ice : String → Bytes → ℕ → Bytes → Event
  connects : ℕ → Event
  waits disconnects : Event
  cleans : (ℕ → Bool) → Event

module _ (J : Json) where
  unfoldable pub step : Event → Mqtt → Did
  unfolding on_message on_local_sdp on_local_ice on_connect disconnect clean
  step (messages expired created topic payload) s = on_message J expired created topic payload s
  step (local_sdp id sdp type) s = on_local_sdp J id sdp type s
  step (local_ice id mid index candidate) s = on_local_ice J id mid index candidate s
  step (connects rc) s = on_connect rc s
  step waits s = (record s { registry = cleaner_wait s.registry }, [])
  step disconnects s = disconnect s
  step (cleans expired) s = clean J expired s

  unfoldable pub run : List Event → Mqtt → Mqtt
  unfolding step
  run [] s = s
  run (e ∷ es) s = run es (step e s).0
