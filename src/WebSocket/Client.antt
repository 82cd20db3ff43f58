-- ===== src/WebSocket/Client.antt =====
-- `WebSocketClient` of src/signaling/websocket_client.cpp. Every method and every handler runs on the thread of the
-- io_context, and is one step; what Boost is asked for, and the calls of the callbacks, are its results. The
-- callbacks act on the client by the calls that come with the event.
use pi_webrtc.Prelude.{
  ℕ, Bool, true, false, not, ◌&&◌, ◌||◌, Option, none, some, List, [], ◌∷◌, ◌++◌, Bytes, is_empty,
  if◌then◌else◌, codes,
}

pub record Frame : Type 0 where
  pub payload : Bytes
  pub text : Bool

-- The callbacks are known by whether they are set.
pub record Client : Type 0 where
  pub use_tls : Bool
  pub write_queue : List Frame
  pub open_ : Bool
  pub writing : Bool
  pub closing : Bool
  pub finished : Bool
  pub close_code : ℕ
  pub close_reason : Bytes
  pub has_on_open : Bool
  pub has_on_message : Bool
  pub has_on_close : Bool

-- `queues` is a frame that `Queue` takes.
pub data Action : Type 0 where
  posts_finish async_resolves async_connects tls_handshakes async_handshakes async_reads : Action
  schedules_ping resets_silence cancels_timers closes_socket calls_on_open : Action
  queues async_writes : Frame → Action
  async_closes : ℕ → Bytes → Action
  calls_on_message : Bytes → Action
  calls_on_close : ℕ → Bytes → Action

abbrev pub Did : Type 0
Did = Client × List Action

-- One piece of a handler after another.
infixl 4 ◌andthen◌
abbrev pub ◌andthen◌ : Did → (Client → Did) → Did
d andthen f = ((f d.0).0, d.1 ++ (f d.0).1)

abbrev pub first_only : List Frame → List Frame
first_only [] = []
first_only (f ∷ fs) = f ∷ []

abbrev pub rest_of : List Frame → List Frame
rest_of [] = []
rest_of (f ∷ fs) = fs

unfoldable pub finish : ℕ → Bytes → Client → Did
finish code reason c = if c.finished then (c, []) else (
  record c {
    finished = true;
    open_ = false;
    write_queue = if c.writing then first_only c.write_queue else [];
    has_on_open = false;
    has_on_message = false;
    has_on_close = false;
  },
  cancels_timers ∷ closes_socket ∷ (if c.has_on_close then calls_on_close code reason ∷ [] else []),
)

unfoldable pub do_close : Client → Did
do_close c = (c, async_closes c.close_code c.close_reason ∷ [])

abbrev pub write_front : List Frame → Client → Did
write_front [] c = if c.closing then (c, async_closes c.close_code c.close_reason ∷ []) else (c, [])
write_front (f ∷ fs) c = (record c { writing = true }, async_writes f ∷ [])

unfoldable pub do_write : Client → Did
do_write c = if c.writing || c.finished || not c.open_ then (c, []) else write_front c.write_queue c

unfoldable pub queue : Bytes → Bool → Client → Did
unfolding do_write
queue payload text c =
    let f : Frame = record { payload = payload; text = text } in
    if c.finished || c.closing
    then (c, [])
    else if not c.open_
    then (c, [])
    else (record c { write_queue = c.write_queue ++ f ∷ [] }, queues f ∷ []) andthen do_write

unfoldable pub close : ℕ → Bytes → Client → Did
unfolding do_write finish
close code reason c =
    let c' : Client = record c { closing = true; close_code = code; close_reason = reason } in
    if c.finished || c.closing
    then (c, [])
    else if not c.open_
    then finish code (if is_empty reason then codes "closed before it opened" else reason) c'
    else do_write c'

-- What a callback, or another part of the program, calls.
pub data Op : Type 0 where
  sends : Bytes → Op
  closes : ℕ → Bytes → Op

unfoldable pub act : Op → Client → Did
unfolding queue close
act (sends payload) c = queue payload false c
act (closes code reason) c = close code reason c

unfoldable pub act_all : List Op → Client → Did
unfolding act
act_all [] c = (c, [])
act_all (op ∷ ops) c = act op c andthen act_all ops

-- An asynchronous operation that ends: `failed` carries the end of the reason that is reported, with the host and the
-- message of the error.
pub data Result : Type 0 where
  succeeded : Result
  failed : Bytes → Result

-- A read ends: a frame, with whether it is text; the server's close frame; or another error.
pub data ReadResult : Type 0 where
  received : Bytes → Bool → ReadResult
  closed_by_server : ℕ → Bytes → ReadResult
  lost : Bytes → ReadResult

-- `Open`, at what `ParseWsUrl` says of the url: whether it wants TLS.
unfoldable pub open_url : Option Bool → Client → Did
open_url none c = (c, posts_finish ∷ [])
open_url (some use_tls) c = (record c { use_tls = use_tls }, async_resolves ∷ [])

unfoldable pub on_resolve : Result → Client → Did
unfolding finish
on_resolve (failed why) c =
    if c.finished then (c, []) else finish 0 (codes "could not resolve " ++ why) c
on_resolve succeeded c = if c.finished then (c, []) else (c, async_connects ∷ [])

-- `sni` is whether the TLS server name could be set.
unfoldable pub on_connect : Bool → Result → Client → Did
unfolding finish
on_connect sni (failed why) c =
    if c.finished then (c, []) else finish 0 (codes "could not connect to " ++ why) c
on_connect sni succeeded c =
    if c.finished
    then (c, [])
    else if not c.use_tls
    then (c, async_handshakes ∷ [])
    else if not sni
    then finish 0 (codes "could not set the TLS server name") c
    else (c, tls_handshakes ∷ [])

unfoldable pub on_tls_handshake : Result → Client → Did
unfolding finish
on_tls_handshake (failed why) c =
    if c.finished then (c, []) else finish 0 (codes "TLS handshake with " ++ why) c
on_tls_handshake succeeded c = if c.finished then (c, []) else (c, async_handshakes ∷ [])

-- The callback is called if it is set.
abbrev pub if_set : Bool → Did → Client → Did
if_set b d c = if b then d else (c, [])

unfoldable pub on_handshake : List Op → Result → Client → Did
unfolding finish act_all do_write
on_handshake ops (failed why) c =
    if c.finished then (c, []) else finish 0 (codes "WebSocket handshake with " ++ why) c
on_handshake ops succeeded c =
    let c' : Client = record c { open_ = true } in
    if c.finished
    then (c, [])
    else (c', schedules_ping ∷ resets_silence ∷ async_reads ∷ [])
      andthen if_set c'.has_on_open ((c', calls_on_open ∷ []) andthen act_all ops)
      andthen do_write

-- The end of a read's handler: another read, unless the callback has finished the client.
abbrev pub read_on : Client → Did
read_on c = if not c.finished then (c, async_reads ∷ []) else (c, [])

unfoldable pub on_read : List Op → ReadResult → Client → Did
unfolding finish act_all
on_read ops (closed_by_server code reason) c =
    if c.finished
    then (c, [])
    else finish code (if is_empty reason then codes "closed by the server" else reason) c
on_read ops (lost why) c =
    if c.finished
    then (c, [])
    else if c.closing
    then finish c.close_code c.close_reason c
    else finish 0 (codes "connection lost: " ++ why) c
on_read ops (received payload text) c =
    if c.finished
    then (c, [])
    else (c, resets_silence ∷ [])
      andthen if_set (not text && c.has_on_message)
          ((c, calls_on_message payload ∷ []) andthen act_all ops)
      andthen read_on

unfoldable pub on_write : Result → Client → Did
unfolding finish do_write
on_write result c =
    let c' : Client = record c { writing = false } in
    if c.finished then (record c' { write_queue = [] }, []) else elim result as (λ _. Did) [
      | failed why ↦ finish 0 (codes "could not send: " ++ why) c'
      | succeeded ↦ do_write (record c' { write_queue = rest_of c.write_queue })
    ]

unfoldable pub on_ping_timer : Client → Did
unfolding queue
on_ping_timer c =
    if c.finished || c.closing
    then (c, [])
    else queue (codes "ping") true c andthen λ c'. (c', schedules_ping ∷ [])

unfoldable pub on_silence_timer : Client → Did
unfolding finish
on_silence_timer c = if c.finished then (c, []) else finish 0 (codes "no pong for 35 seconds") c

pub data Event : Type 0 where
  opens : Option Bool → Event
  posted : Event
  acts : Op → Event
  resolved tls_handshaken wrote : Result → Event
  connected : Bool → Result → Event
  handshaken : List Op → Result → Event
  reads : List Op → ReadResult → Event
  close_done ping_due silence_due : Event

unfoldable pub step : Event → Client → Did
unfolding open_url finish act on_resolve on_connect on_tls_handshake on_handshake on_read on_write
    on_ping_timer on_silence_timer
step (opens url) c = open_url url c
step posted c = finish 0 (codes "the url is not a ws:// or wss:// url") c
step (acts op) c = act op c
step (resolved result) c = on_resolve result c
step (tls_handshaken result) c = on_tls_handshake result c
step (wrote result) c = on_write result c
step (connected sni result) c = on_connect sni result c
step (handshaken ops result) c = on_handshake ops result c
step (reads ops result) c = on_read ops result c
step close_done c = finish c.close_code c.close_reason c
step ping_due c = on_ping_timer c
step silence_due c = on_silence_timer c

unfoldable pub run : List Event → Client → Did
unfolding step
run [] c = (c, [])
run (e ∷ es) c = step e c andthen run es
