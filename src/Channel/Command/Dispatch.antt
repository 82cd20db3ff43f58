-- ===== src/Channel/Command/Dispatch.antt =====
-- Which handlers a request reaches.
use pi_webrtc.Prelude.{
  ℕ, ◌≡◌, refl, sym, ap, ap₂, ◌∙◌, inl, inr, Bytes, List, [], ◌∷◌, ◌++◌, map, append_assoc,
  append-nil, if◌then◌else◌, eqb, Option-cases, nat_eq, arith,
}
use pi_webrtc.Prelude.Dict.{lookup, lookup-insert}
use pi_webrtc.Channel.Packet.{Packet, Body, request}
use pi_webrtc.Channel.Command.{
  CommandChannel, call_of, handlers_of, register_handler, dispatch, on_packet,
}

-- Registrations in order: the payload case and the handler.
pub register_all : List (ℕ × ℕ) → CommandChannel → CommandChannel
register_all [] c = c
register_all ((request_case, func) ∷ rs) c = register_all rs (register_handler request_case func c)

-- The handlers registered for a case, in order.
abbrev pub registered : ℕ → List (ℕ × ℕ) → List ℕ
registered p [] = []
registered p ((request_case, func) ∷ rs) =
    if eqb request_case p then func ∷ registered p rs else registered p rs

handlers_of-register_all :
    (rs : List (ℕ × ℕ)) (p : ℕ) (c : CommandChannel)
    → handlers_of (lookup p (register_all rs c).handlers)
      ≡ handlers_of (lookup p c.handlers) ++ registered p rs
unfolding register_all register_handler
handlers_of-register_all [] p c = sym (append-nil _)
handlers_of-register_all ((r, func) ∷ rs) p c =
    handlers_of-register_all rs p (register_handler r func c)
    ∙ ground (
      arith,
      lookup-insert r p (handlers_of (lookup r c.handlers) ++ func ∷ []) c.handlers,
      append_assoc (handlers_of (lookup r c.handlers)) (func ∷ []) (registered p rs),
    )

register_all-stream :
    (rs : List (ℕ × ℕ)) (c : CommandChannel) → (register_all rs c).stream ≡ c.stream
unfolding register_all register_handler
register_all-stream [] c = refl
register_all-stream ((r, func) ∷ rs) c = register_all-stream rs (register_handler r func c)

dispatch-request :
    (packet : Packet) (p : ℕ) (payload : Bytes) (c : CommandChannel)
    → dispatch packet (request p payload) c
      ≡ map (call_of packet payload c.stream) (handlers_of (lookup p c.handlers))
unfolding dispatch
dispatch-request packet p payload c = elim (Option-cases (lookup p c.handlers)) [
  | inl e ↦ rw (e, dispatch)
  | inr (hs, e) ↦ rw (e, dispatch)
]

-- A request to a channel that began without handlers calls those registered for its payload
-- case since, each once a registration and in the order of registration, with the request and
-- the stream channel of the moment; it calls no others.
pub on_packet-registered :
    (rs : List (ℕ × ℕ)) (c : CommandChannel) (packet : Packet) (p : ℕ) (payload : Bytes)
    → c.handlers ≡ []
    → packet.body ≡ request p payload
    → on_packet packet (register_all rs c) ≡ map (call_of packet payload c.stream) (registered p rs)
unfolding on_packet
on_packet-registered rs c packet p payload empty e =
    ap (λ (b : Body). dispatch packet b (register_all rs c)) e
    ∙ dispatch-request packet p payload (register_all rs c)
    ∙ ap₂ (λ s. map (call_of packet payload s)) (register_all-stream rs c)
        (handlers_of-register_all rs p c ∙ rw empty)
