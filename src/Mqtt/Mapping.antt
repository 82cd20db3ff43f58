-- ===== src/Mqtt/Mapping.antt =====
-- The two maps between clients and peers of src/signaling/mqtt_service.cpp agree.
use pi_webrtc.Prelude.{
  ℕ, ◌≡◌, refl, ap, String, Bool, true, not, Option, none, some, List, [], ◌∷◌, Bytes, is_empty,
  eqb, if◌then◌else◌, ◌==◌, ==_iff, Eq, string_eq, bytes_eq, if_either, arith,
}
use pi_webrtc.Prelude.Dict.{lookup, insert, erase, lookup-insert, lookup-erase}
use pi_webrtc.Peers.{cleaner_sweep}
use pi_webrtc.Mqtt.Topic.{TopicType, find_topic_type, find_client_id, is_unknown}
use pi_webrtc.Mqtt.Service.{
  Mqtt, Json, Action, Event, messages, local_sdp, local_ice, connects, waits, disconnects, cleans,
  maps_to, forget_peer, on_peer_expired, on_peers_expired, with_peer, on_message, disconnect,
  on_local_sdp, on_local_ice, on_connect, clean, step, run,
}

maps_to-eq : {P : Type 0} ⦃f : Eq P⦄ (o : Option P) (p : P) → maps_to o p ≡ true → o ≡ some p
maps_to-eq none p e = cc
maps_to-eq (some q) p e = ap some ((==_iff q p).0 e)

module _ {C P : Type 0} ⦃e : Eq C⦄ ⦃f : Eq P⦄ where
  -- What a client is mapped to is mapped back to it.
  abbrev pub Mirrored : List (C × P) → List (P × C) → Type 0
  Mirrored cs ps = (c : C) (p : P) → lookup c cs ≡ some p → lookup p ps ≡ some c

  insert-Mirrored :
      (c : C) (p : P) (cs : List (C × P)) (ps : List (P × C))
      → lookup p ps ≡ none
      → Mirrored cs ps
      → Mirrored (insert c p cs) (insert p c ps)
  insert-Mirrored c p cs ps fresh h c' q at_c =
      ground
        (arith, lookup-insert c c' p cs, lookup-insert p q c ps, h c' q, ==_iff c c', ==_iff p q)

  -- When a peer goes, just the entry that still has it goes with it.
  cut_lem :
      (c c' : C) (p : P) (cs : List (C × P)) (ps : List (P × C))
      → lookup p ps ≡ some c
      → Mirrored cs ps
      → lookup c' (if maps_to (lookup c cs) p then erase c cs else cs)
        ≡ (if maps_to (lookup c' cs) p then none else lookup c' cs)
  cut_lem c c' p cs ps there h =
      ground (arith, lookup-erase c c' cs, h c' p, ==_iff c c', maps_to-eq (lookup c' cs) p)

  -- A peer that nobody is mapped back from has no client.
  unmapped :
      (c : C) (p : P) (cs : List (C × P)) (ps : List (P × C))
      → lookup p ps ≡ none
      → Mirrored cs ps
      → lookup c cs ≡ (if maps_to (lookup c cs) p then none else lookup c cs)
  unmapped c p cs ps absent h = ground (arith, h c p, maps_to-eq (lookup c cs) p)

  unlisted :
      (p q : P) (ps : List (P × C))
      → lookup p ps ≡ none
      → lookup q ps ≡ (if p == q then none else lookup q ps)
  unlisted p q ps absent = ground (arith, ==_iff p q)

  erase-Mirrored :
      (p : P) (cs cs' : List (C × P)) (ps : List (P × C)) (c : C)
      → lookup p ps ≡ some c
      → ((c' : C) → lookup c' cs' ≡ (if maps_to (lookup c' cs) p then none else lookup c' cs))
      → Mirrored cs ps
      → Mirrored cs' (erase p ps)
  erase-Mirrored p cs cs' ps c there cut h c' q at_c =
      let before = cut c' in
      ground (arith, before, lookup-erase p q ps, h c' q, ==_iff q p, ==_iff p q)

abbrev pub IsMirrored : Mqtt → Type 0
IsMirrored s = Mirrored s.client_id_to_peer_id s.peer_id_to_client_id

-- What the report of an expired peer leaves of the maps.
abbrev pub Forgets : String → Mqtt → Mqtt → Type 0
Forgets p s s' =
    ((c : Bytes)
      → lookup c s'.client_id_to_peer_id ≡ (
          if maps_to (lookup c s.client_id_to_peer_id) p
          then none
          else lookup c s.client_id_to_peer_id))
    × ((q : String)
        → lookup q s'.peer_id_to_client_id
          ≡ (if p == q then none else lookup q s.peer_id_to_client_id))

forget_peer-Forgets :
    (o : Option Bytes) (p : String) (s : Mqtt)
    → lookup p s.peer_id_to_client_id ≡ o
    → IsMirrored s
    → Forgets p s (forget_peer o p s) × IsMirrored (forget_peer o p s)
forget_peer-Forgets none p s absent h = (
  (
    λ c. unmapped c p _ s.peer_id_to_client_id absent h,
    λ q. unlisted p q s.peer_id_to_client_id absent,
  ),
  h,
)
forget_peer-Forgets (some c₀) p s there h =
    let cut = λ (c : Bytes). cut_lem c₀ c p s.client_id_to_peer_id s.peer_id_to_client_id there h in
    (
      (cut, λ q. lookup-erase p q s.peer_id_to_client_id),
      erase-Mirrored p s.client_id_to_peer_id _ s.peer_id_to_client_id c₀ there cut h,
    )

-- A peer that has expired is forgotten: the client that still has it has none afterwards, a client that has come
-- to another peer meanwhile keeps that one, all other entries stay, and the maps still agree.
pub on_peer_expired-Forgets :
    (p : String) (s : Mqtt)
    → IsMirrored s
    → Forgets p s (on_peer_expired p s) × IsMirrored (on_peer_expired p s)
unfolding on_peer_expired
on_peer_expired-Forgets p s h = forget_peer-Forgets (lookup p s.peer_id_to_client_id) p s refl h

on_peers_expired-IsMirrored :
    (ids : List String) (s : Mqtt) → IsMirrored s → IsMirrored (on_peers_expired ids s)
unfolding on_peers_expired
on_peers_expired-IsMirrored [] s h = h
on_peers_expired-IsMirrored (id ∷ ids) s h =
    on_peers_expired-IsMirrored ids (on_peer_expired id s) (on_peer_expired-Forgets id s h).1

-- The conductor gives a new peer an id that no peer has had.
abbrev pub IsFresh : Option (ℕ × String) → Mqtt → Type 0
IsFresh none s = Unit
IsFresh (some (peer, id)) s = lookup id s.peer_id_to_client_id ≡ none

abbrev pub EventFresh : Event → Mqtt → Type 0
EventFresh (messages expired created topic payload) s = IsFresh created s
EventFresh _ s = Unit

with_peer-IsMirrored :
    (J : Json) (expired : ℕ → Bool) (found created : Option (ℕ × String)) (t : TopicType)
    (c payload : Bytes) (s : Mqtt)
    → IsFresh created s
    → IsMirrored s
    → IsMirrored (with_peer J expired found created t c payload s).0
with_peer-IsMirrored J expired (some (peer, id)) created t c payload s fresh h = h
with_peer-IsMirrored J expired none none t c payload s fresh h = h
with_peer-IsMirrored J expired none (some (peer, id)) t c payload s fresh h =
    insert-Mirrored c id s.client_id_to_peer_id s.peer_id_to_client_id fresh h

step-IsMirrored :
    (J : Json) (e : Event) (s : Mqtt) → EventFresh e s → IsMirrored s → IsMirrored (step J e s).0
unfolding step on_message on_local_sdp on_local_ice on_connect disconnect clean
step-IsMirrored J (messages expired created topic none) s fresh h = h
step-IsMirrored J (messages expired created topic (some payload)) s fresh h =
    let P = λ (d : Mqtt × List Action). IsMirrored d.0 in
    if_either P (is_unknown (find_topic_type s.uid topic)) (λ _. h)
      λ _.
        if_either P (is_empty (find_client_id s.uid topic)) (λ _. h)
          λ _.
            with_peer-IsMirrored J expired _ created _ (find_client_id s.uid topic) payload s fresh
              h
step-IsMirrored J (local_sdp id sdp type) s fresh h = h
step-IsMirrored J (local_ice id mid index candidate) s fresh h = h
step-IsMirrored J (connects rc) s fresh h =
    if_either (λ (d : Mqtt × List Action). IsMirrored d.0) (eqb rc 0) (λ _. h) (λ _. h)
step-IsMirrored J waits s fresh h = h
step-IsMirrored J disconnects s fresh h =
    if_either (λ (d : Mqtt × List Action). IsMirrored d.0) (not s.has_connection) (λ _. h)
      (λ _. (λ c p e. cc))
step-IsMirrored J (cleans expired) s fresh h =
    on_peers_expired-IsMirrored (cleaner_sweep expired s.registry).2
      (record s { registry = (cleaner_sweep expired s.registry).0 }) h

abbrev pub Fresh : Json → List Event → Mqtt → Type 0
Fresh J [] s = Unit
Fresh J (e ∷ es) s = EventFresh e s × Fresh J es (step J e s).0

-- Whatever messages, reports of expired peers and disconnections come, where each new peer has a new id: the peer
-- that a client is mapped to is mapped back to that client.
pub run-IsMirrored :
    (J : Json) (es : List Event) (s : Mqtt) → Fresh J es s → IsMirrored s → IsMirrored (run J es s)
unfolding run
run-IsMirrored J [] s fresh h = h
run-IsMirrored J (e ∷ es) s fresh h =
    run-IsMirrored J es (step J e s).0 fresh.1 (step-IsMirrored J e s fresh.0 h)
