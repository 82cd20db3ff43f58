-- ===== src/Mqtt/Routing.antt =====
-- Where the answers of a peer go in src/signaling/mqtt_service.cpp.
use pi_webrtc.Prelude.{
  ℕ, ◌≡◌, ◌≢◌, refl, ◌∙◌, String, Bool, false, not, Option, none, some, List, [], ◌∷◌, Bytes, All,
  is_empty, eqb, ◌==◌, ==_iff, Eq, string_eq, bytes_eq, if_either, arith,
}
use pi_webrtc.Prelude.Dict.{lookup, insert, lookup-insert, lookup-erase}
use pi_webrtc.Peers.{cleaner_sweep}
use pi_webrtc.Mqtt.Topic.{
  TopicType, ice, unknown, is_unknown, get_topic, find_topic_type, find_client_id, Slashless,
  find_client_id-get_topic,
}
use pi_webrtc.Mqtt.Service.{
  Mqtt, Json, Action, publishes, Event, messages, local_sdp, local_ice, connects, waits,
  disconnects, cleans, forget_peer, on_peer_expired, on_peers_expired, mapped_peer, with_peer,
  on_message, disconnect, on_local_sdp, on_local_ice, on_connect, clean, step, run,
}
use pi_webrtc.Mqtt.Mapping.{EventFresh, IsFresh}

-- The peer is mapped back to the client.
pub record IsRoute (p : String) (c uid : Bytes) (s : Mqtt) : Type 0 where
  pub mapped : lookup p s.peer_id_to_client_id ≡ some c
  pub same_uid : s.uid ≡ uid

-- The step neither drops the peer nor the connection.
abbrev pub EventSpares : String → Event → Mqtt → Type 0
EventSpares p disconnects s = s.has_connection ≡ false
EventSpares p (cleans expired) s =
    All (λ id. (id == p) ≡ false) (cleaner_sweep expired s.registry).2
EventSpares p _ s = Unit

kept_key :
    {P C : Type 0} ⦃f : Eq P⦄ (p q : P) (c d : C) (ps : List (P × C))
    → lookup q ps ≡ none
    → lookup p ps ≡ some c
    → lookup p (insert q d ps) ≡ some c
kept_key p q c d ps fresh h = ground (arith, lookup-insert q p d ps, ==_iff q p)

with_peer-IsRoute :
    (J : Json) (expired : ℕ → Bool) (found created : Option (ℕ × String)) (t : TopicType)
    (payload c' : Bytes) (p : String) (c uid : Bytes) (s : Mqtt)
    → IsFresh created s
    → IsRoute p c uid s
    → IsRoute p c uid (with_peer J expired found created t c' payload s).0
with_peer-IsRoute J expired (some (peer, id)) created t payload c' p c uid s fresh h = h
with_peer-IsRoute J expired none none t payload c' p c uid s fresh h = h
with_peer-IsRoute J expired none (some (peer, id)) t payload c' p c uid s fresh h = record {
  mapped = kept_key p id c c' s.peer_id_to_client_id fresh h.mapped;
  same_uid = h.same_uid;
}

forget_peer-IsRoute :
    (o : Option Bytes) (q p : String) (c uid : Bytes) (s : Mqtt)
    → (q == p) ≡ false
    → IsRoute p c uid s
    → IsRoute p c uid (forget_peer o q s)
forget_peer-IsRoute none q p c uid s e h = h
forget_peer-IsRoute (some c') q p c uid s e h = record {
  mapped = lookup-erase q p s.peer_id_to_client_id ∙ rw e h.mapped;
  same_uid = h.same_uid;
}

on_peers_expired-IsRoute :
    (ids : List String) (p : String) (c uid : Bytes) (s : Mqtt)
    → All (λ id. (id == p) ≡ false) ids
    → IsRoute p c uid s
    → IsRoute p c uid (on_peers_expired ids s)
unfolding on_peers_expired on_peer_expired
on_peers_expired-IsRoute [] p c uid s e h = h
on_peers_expired-IsRoute (id ∷ ids) p c uid s e h =
    on_peers_expired-IsRoute ids p c uid (on_peer_expired id s) e.1
      (forget_peer-IsRoute (lookup id s.peer_id_to_client_id) id p c uid s e.0 h)

step-IsRoute :
    (J : Json) (e : Event) (p : String) (c uid : Bytes) (s : Mqtt)
    → EventFresh e s
    → EventSpares p e s
    → IsRoute p c uid s
    → IsRoute p c uid (step J e s).0
unfolding step on_message on_local_sdp on_local_ice on_connect disconnect clean
step-IsRoute J (messages expired created topic none) p c uid s fresh k h = h
step-IsRoute J (messages expired created topic (some payload)) p c uid s fresh k h =
    let P = λ (d : Mqtt × List Action). IsRoute p c uid d.0 in
    if_either P (is_unknown (find_topic_type s.uid topic)) (λ _. h)
      λ _.
        if_either P (is_empty (find_client_id s.uid topic)) (λ _. h)
          λ _.
            with_peer-IsRoute J expired _ created _ payload (find_client_id s.uid topic) p c uid s
              fresh h
step-IsRoute J (local_sdp id sdp type) p c uid s fresh k h = h
step-IsRoute J (local_ice id mid index candidate) p c uid s fresh k h = h
step-IsRoute J (connects rc) p c uid s fresh k h =
    if_either (λ (d : Mqtt × List Action). IsRoute p c uid d.0) (eqb rc 0) (λ _. h) (λ _. h)
step-IsRoute J waits p c uid s fresh k h = record { mapped = h.mapped; same_uid = h.same_uid }
step-IsRoute J disconnects p c uid s fresh k h =
    if_either (λ (d : Mqtt × List Action). IsRoute p c uid d.0) (not s.has_connection)
      (λ _. record { mapped = h.mapped; same_uid = h.same_uid }) (λ e. cc)
step-IsRoute J (cleans expired) p c uid s fresh k h =
    on_peers_expired-IsRoute (cleaner_sweep expired s.registry).2 p c uid
      (record s { registry = (cleaner_sweep expired s.registry).0 }) k
      (record { mapped = h.mapped; same_uid = h.same_uid })

-- New peers have new ids, the connection stays, and no round of the cleaner drops the peer.
abbrev pub Spares : Json → String → List Event → Mqtt → Type 0
Spares J p [] s = Unit
Spares J p (e ∷ es) s = EventFresh e s × EventSpares p e s × Spares J p es (step J e s).0

run-IsRoute :
    (J : Json) (es : List Event) (p : String) (c uid : Bytes) (s : Mqtt)
    → Spares J p es s
    → IsRoute p c uid s
    → IsRoute p c uid (run J es s)
unfolding run
run-IsRoute J [] p c uid s k h = h
run-IsRoute J (e ∷ es) p c uid s k h =
    run-IsRoute J es p c uid (step J e s).0 k.2 (step-IsRoute J e p c uid s k.0 k.1 h)

is_known : (t : TopicType) → t ≢ unknown → is_unknown t ≡ false
is_known TopicType.offer h = refl
is_known TopicType.answer h = refl
is_known ice h = refl
is_known unknown h = absurd (h refl)

has_bytes : (c : Bytes) → c ≢ [] → is_empty c ≡ false
has_bytes [] h = absurd (h refl)
has_bytes (b ∷ c) h = refl

created-IsRoute :
    (J : Json) (expired : ℕ → Bool) (peer : ℕ) (id : String) (t : TopicType) (c payload : Bytes)
    (s : Mqtt)
    → c ≢ []
    → Slashless c
    → t ≢ unknown
    → mapped_peer expired (lookup c s.client_id_to_peer_id) s ≡ none
    → IsRoute id c s.uid
        (on_message J expired (some (peer, id)) (get_topic s.uid t c) (some payload) s).0
unfolding on_message
created-IsRoute J expired peer id t c payload s some_c slashless known free =
    let (type, client) = find_client_id-get_topic s.uid c t some_c slashless known in
    rw (type, client, free, is_known t known, has_bytes c some_c)
      (record {
        mapped = lookup-insert id id c s.peer_id_to_client_id ∙ rw ((==_iff id id).1 refl) refl;
        same_uid = refl;
      })

-- A client without a peer sends a message on one of its topics, and the conductor gives it a new peer. Whatever
-- happens then, as long as new peers have new ids, the connection stays and the cleaner does not drop this peer:
-- what the peer finds of ICE is published once, on the topic from which the client's id is read back.
pub on_message-answers :
    (J : Json) (expired : ℕ → Bool) (peer : ℕ) (id : String) (t : TopicType) (c payload : Bytes)
    (es : List Event) (s : Mqtt) (mid : Bytes) (index : ℕ) (candidate : Bytes)
    → c ≢ []
    → Slashless c
    → t ≢ unknown
    → mapped_peer expired (lookup c s.client_id_to_peer_id) s ≡ none
    → let s' = (on_message J expired (some (peer, id)) (get_topic s.uid t c) (some payload) s).0 in
      Spares J id es s'
      → (topic : Bytes) × ((on_local_ice J id mid index candidate (run J es s')).1
          ≡ publishes topic (J.print_ice mid index candidate) ∷ [])
        × (find_topic_type s.uid topic ≡ ice)
        × (find_client_id s.uid topic ≡ c)
unfolding on_local_ice
on_message-answers J expired peer id t c payload es s mid index candidate some_c slashless known
      free k =
    let s' = (on_message J expired (some (peer, id)) (get_topic s.uid t c) (some payload) s).0 in
    let route =
      run-IsRoute J es id c s.uid s' k
        (created-IsRoute J expired peer id t c payload s some_c slashless known free) in
    let (type, client) = find_client_id-get_topic s.uid c ice some_c slashless (λ e. cc) in
    (get_topic s.uid ice c, rw (route.mapped, route.same_uid) refl, type, client)
