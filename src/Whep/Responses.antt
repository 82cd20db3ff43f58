-- ===== src/Whep/Responses.antt =====
-- Each request to src/signaling/whep_service.cpp is answered once.
use pi_webrtc.Prelude.{
  ℕ, ◌+◌, ◌≡◌, refl, sym, ap, ◌∙◌, Bool, true, false, not, ◌&&◌, ◌||◌, Option, none, some, List, [],
  ◌∷◌, ◌++◌, Bytes, if◌then◌else◌, codes, ◌==◌, bytes_eq, inl, inr, Bool-cases, if_either, arith,
}
use pi_webrtc.Whep.Target.{WhepTarget, invalid, endpoint, session, parse}
use pi_webrtc.Whep.Sdp.{Candidate, IceCandidates, media_type_of, entity_tag_of, parse_candidates}
use pi_webrtc.Whep.Session

abbrev pub responses : List Session.Action → ℕ
responses [] = 0
responses (Session.Action.writes_response res ∷ as') = 1 + responses as'
responses (Session.Action.creates_peer id ∷ as') = responses as'
responses (Session.Action.removes_peer id ∷ as') = responses as'
responses (Session.Action.sets_remote_sdp sdp ∷ as') = responses as'
responses (Session.Action.restarts_ice ufrag pwd ∷ as') = responses as'
responses (Session.Action.sets_remote_ice candidate ∷ as') = responses as'

responses-append :
    (as' bs : List Session.Action) → responses (as' ++ bs) ≡ responses as' + responses bs
responses-append [] bs = omega arith
responses-append (Session.Action.writes_response res ∷ as') bs =
    omega (arith, responses-append as' bs)
responses-append (Session.Action.creates_peer id ∷ as') bs = responses-append as' bs
responses-append (Session.Action.removes_peer id ∷ as') bs = responses-append as' bs
responses-append (Session.Action.sets_remote_sdp sdp ∷ as') bs = responses-append as' bs
responses-append (Session.Action.restarts_ice ufrag pwd ∷ as') bs = responses-append as' bs
responses-append (Session.Action.sets_remote_ice candidate ∷ as') bs = responses-append as' bs

responses-all_set : (l : List Candidate) → responses (Session.all_set l) ≡ 0
responses-all_set [] = refl
responses-all_set (c ∷ l) = responses-all_set l

abbrev pub one_if : Bool → ℕ
one_if true = 1
one_if false = 0

abbrev pub is_some : {A : Type 0} → Option A → Bool
is_some none = false
is_some (some a) = true

-- A handler either has responded, once, or awaits a description with the timer on.
pub record Answered (d : Session.Did) : Type 0 where
  pub counted : responses d.1 ≡ one_if d.0.responded
  pub waits : (d.0.responded || is_some d.0.awaits && d.0.answer_timer) ≡ true

-- It has responded at once.
at_once :
    (actions : List Session.Action) (res : Session.Response) (s : Session.HttpSession)
    → responses actions ≡ 0
    → Answered (Session.prepend actions (Session.send res s))
unfolding Session.send
at_once actions res s e = record {
  counted = responses-append actions _ ∙ omega (arith, e);
  waits = refl;
}

-- A session that has responded with nothing yet.
module _ (a : Session.Answers) (req : Session.Request) where
  error-Answered :
      (status : ℕ) (message : Bytes) (s : Session.HttpSession)
      → Answered (Session.respond_error status message s)
  unfolding Session.respond_error
  error-Answered status message s = at_once [] _ s refl

  not_allowed-Answered :
      (target : WhepTarget) (s : Session.HttpSession)
      → Answered (Session.respond_method_not_allowed target s)
  unfolding Session.respond_method_not_allowed
  not_allowed-Answered target s = at_once [] _ s refl

  post_created-Answered :
      (o : Option Bytes) (s : Session.HttpSession)
      → s.responded ≡ false
      → Answered (Session.post_created o req s)
  post_created-Answered none s h = error-Answered 500 _ s
  post_created-Answered (some id) s h = record { counted = ap one_if (sym h); waits = ground arith }

  post-Answered :
      (s : Session.HttpSession)
      → s.responded ≡ false
      → Answered (Session.handle_post_request a req s)
  unfolding Session.handle_post_request
  post-Answered s h =
      if_either Answered
        (not (media_type_of (Session.header req.content_type) == codes "application/sdp"))
        (λ _. error-Answered 415 _ s) (λ _. post_created-Answered a.create_peer s h)

  restart-Answered :
      (group : IceCandidates) (s : Session.HttpSession)
      → s.responded ≡ false
      → Answered (Session.handle_restart a group s)
  unfolding Session.handle_restart Session.respond_error
  restart-Answered group s h =
      let asks = Session.Action.restarts_ice group.ice_ufrag group.ice_pwd in
      if_either (λ d. Answered (Session.prepend (asks ∷ []) d)) (not a.restart_ice)
        (λ _. at_once (asks ∷ []) _ (Session.await_local_sdp Session.Await.restart s) refl)
        (λ _. record {
          counted = responses-all_set group.candidates ∙ ap one_if (sym h);
          waits = ground arith;
        })

  matched-Answered :
      (o : Option Bytes) (group : IceCandidates) (s : Session.HttpSession)
      → s.responded ≡ false
      → Answered (Session.patch_matched a o group s)
  matched-Answered none group s h = error-Answered 428 _ s
  matched-Answered (some tag) group s h =
      if_either Answered (tag == codes "*") (λ _. restart-Answered group s h)
        λ _.
          if_either Answered (not (tag == entity_tag_of a.local_sdp)) (λ _. error-Answered 412 _ s)
            λ _. at_once (Session.all_set group.candidates) _ s (responses-all_set group.candidates)

  patch-Answered :
      (s : Session.HttpSession)
      → s.responded ≡ false
      → Answered (Session.handle_patch_request a req s)
  unfolding Session.handle_patch_request
  patch-Answered s h =
      let type = media_type_of (Session.header req.content_type) in
      if_either Answered (type == codes "application/sdp") (λ _. error-Answered 422 _ s)
        λ _.
          if_either Answered (not (type == codes "application/trickle-ice-sdpfrag"))
            (λ _. error-Answered 415 _ s)
            λ _. matched-Answered req.if_match (parse_candidates req.body) s h

  endpoint-Answered :
      (v : Session.Verb) (stream : Bytes) (s : Session.HttpSession)
      → s.responded ≡ false
      → Answered (Session.at_endpoint v stream a req s)
  endpoint-Answered Session.Verb.post stream s h = post-Answered s h
  endpoint-Answered Session.Verb.get stream s h = at_once [] _ s refl
  endpoint-Answered Session.Verb.head stream s h = at_once [] _ s refl
  endpoint-Answered Session.Verb.patch stream s h = not_allowed-Answered (endpoint stream) s
  endpoint-Answered Session.Verb.delete stream s h = not_allowed-Answered (endpoint stream) s
  endpoint-Answered Session.Verb.options stream s h = not_allowed-Answered (endpoint stream) s
  endpoint-Answered Session.Verb.other stream s h = not_allowed-Answered (endpoint stream) s

  published-Answered :
      (o : Option Bytes) (stream : Bytes) (s : Session.HttpSession)
      → s.responded ≡ false
      → Answered (Session.published o stream a req s)
  published-Answered none stream s h = error-Answered 404 _ s
  published-Answered (some camera) stream s h = endpoint-Answered req.verb stream s h

  session-Answered :
      (v : Session.Verb) (id : Bytes) (s : Session.HttpSession)
      → s.responded ≡ false
      → Answered (Session.at_session v id a req s)
  unfolding Session.handle_delete_request
  session-Answered Session.Verb.patch id s h = patch-Answered s h
  session-Answered Session.Verb.delete id s h =
      at_once (Session.Action.removes_peer id ∷ []) _ s refl
  session-Answered Session.Verb.get id s h = at_once [] _ s refl
  session-Answered Session.Verb.head id s h = at_once [] _ s refl
  session-Answered Session.Verb.post id s h = not_allowed-Answered (session id) s
  session-Answered Session.Verb.options id s h = not_allowed-Answered (session id) s
  session-Answered Session.Verb.other id s h = not_allowed-Answered (session id) s

  route-Answered :
      (target : WhepTarget) (s : Session.HttpSession)
      → s.responded ≡ false
      → Answered (Session.route target a req s)
  unfolding Session.handle_endpoint_request Session.handle_session_request
  route-Answered (endpoint stream) s h = published-Answered (a.resolve_stream stream) stream s h
  route-Answered (session id) s h =
      if_either Answered (not (a.get_peer id)) (λ _. error-Answered 404 _ s)
        (λ _. session-Answered req.verb id s h)
  route-Answered invalid s h = error-Answered 404 _ s

  request-Answered :
      (s : Session.HttpSession) → s.responded ≡ false → Answered (Session.handle_request a req s)
  unfolding Session.handle_request Session.handle_options_request
  request-Answered s h =
      if_either Answered (Session.is_options req.verb) (λ _. at_once [] _ s refl)
        (λ _. route-Answered (parse req.target) s h)

-- A local description comes, or the timer runs out.
abbrev pub comes : List Session.Event → Bool
comes [] = false
comes (Session.Event.local_sdp sdp ∷ es) = true
comes (Session.Event.timer_ends cancelled ∷ es) = not cancelled || comes es

abbrev then_run : List Session.Event → Session.Did → Session.Did
then_run es d = ((Session.run es d.0).0, d.1 ++ (Session.run es d.0).1)

step_responded :
    (e : Session.Event) (s : Session.HttpSession) → s.responded ≡ true → Session.step e s ≡ (s, [])
unfolding Session.step
step_responded (Session.Event.local_sdp sdp) s h =
    ap (λ b. if not b then Session.answer_awaited s.awaits sdp s else (s, [])) h
step_responded (Session.Event.timer_ends true) s h = refl
step_responded (Session.Event.timer_ends false) s h =
    ap (λ b. if not b then Session.time_out s.awaits s else (s, [])) h

run_responded :
    (es : List Session.Event) (s : Session.HttpSession)
    → s.responded ≡ true
    → Session.run es s ≡ (s, [])
unfolding Session.run
run_responded [] s h = refl
run_responded (e ∷ es) s h = ap (then_run es) (step_responded e s h) ∙ run_responded es s h

-- What an awaited description, or the end of the wait, does.
answered-once :
    (o : Option Session.Await) (sdp : Bytes) (s : Session.HttpSession)
    → is_some o ≡ true
    → let (s', as') = Session.answer_awaited o sdp s in (responses as' ≡ 1) × (s'.responded ≡ true)
unfolding Session.respond_created Session.respond_ice_restarted
answered-once none sdp s h = absurd (cc)
answered-once (some (Session.Await.creation id)) sdp s h = (refl, refl)
answered-once (some Session.Await.restart) sdp s h = (refl, refl)

timed_out-once :
    (o : Option Session.Await) (s : Session.HttpSession)
    → is_some o ≡ true
    → let (s', as') = Session.time_out o s in (responses as' ≡ 1) × (s'.responded ≡ true)
unfolding Session.respond_error
timed_out-once none s h = absurd (cc)
timed_out-once (some (Session.Await.creation id)) s h = (refl, refl)
timed_out-once (some Session.Await.restart) s h = (refl, refl)

-- A step that responds is the last that does.
responds-last :
    (es : List Session.Event) (d : Session.Did)
    → (responses d.1 ≡ 1) × (d.0.responded ≡ true)
    → responses (then_run es d).1 ≡ 1
responds-last es d (e, f) =
    responses-append d.1 (Session.run es d.0).1
    ∙ omega (arith, e, ap (λ (x : Session.Did). responses x.1) (run_responded es d.0 f))

run_waiting :
    (es : List Session.Event) (s : Session.HttpSession)
    → s.responded ≡ false
    → is_some s.awaits ≡ true
    → responses (Session.run es s).1 ≡ one_if (comes es)
unfolding Session.run Session.step
run_waiting [] s h w = refl
run_waiting (Session.Event.local_sdp sdp ∷ es) s h w =
    ap
      (λ b.
        responses
          (then_run es (if not b then Session.answer_awaited s.awaits sdp s else (s, []))).1)
      h
    ∙ responds-last es (Session.answer_awaited s.awaits sdp s) (answered-once s.awaits sdp s w)
run_waiting (Session.Event.timer_ends true ∷ es) s h w = run_waiting es s h w
run_waiting (Session.Event.timer_ends false ∷ es) s h w =
    ap (λ b. responses (then_run es (if not b then Session.time_out s.awaits s else (s, []))).1) h
    ∙ responds-last es (Session.time_out s.awaits s) (timed_out-once s.awaits s w)

-- For each request, whatever the service and the peer answer, and whatever local descriptions and ends of the timer
-- follow in any number and order: if the handler responds at once, that is the only response; otherwise there
-- is exactly one once a description comes or the timer runs out, and none before.
pub request-one_response :
    (a : Session.Answers) (req : Session.Request) (es : List Session.Event)
    → let (s, as') = Session.handle_request a req Session.create in
      responses (as' ++ (Session.run es s).1) ≡ one_if (s.responded || comes es)
request-one_response a req es =
    let d = Session.handle_request a req Session.create in
    let k = request-Answered a req Session.create refl in
    responses-append d.1 (Session.run es d.0).1 ∙ elim (Bool-cases d.0.responded) [
      | inl e ↦ omega (
        arith,
        k.counted,
        ap one_if e,
        ap (λ (x : Session.Did). responses x.1) (run_responded es d.0 e),
        ap (λ b. one_if (b || comes es)) e,
      )
      | inr e ↦
          let waits : is_some d.0.awaits ≡ true = ground (arith, k.waits) in
          omega (
            arith,
            k.counted,
            ap one_if e,
            run_waiting es d.0 e waits,
            ap (λ b. one_if (b || comes es)) e,
          )
    ]
