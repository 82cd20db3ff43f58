-- ===== src/Socket.antt =====
-- src/ipc/unix_socket_server.cpp: the server behind an endpoint. The kernel's sockets are a parameter,
-- `Kernel`, with what Linux documents of them in `KernelLaws`. A method that holds the mutex is
-- one step; the threads that accept and read run such steps in any order. `PublishLatest` and a
-- round of `AcceptLoop` hold it twice, to store and then to flush, and are one step here too.
pub mod WriteAll
pub mod Clients
pub mod Latest
pub mod Publish
pub mod Loopback
mod Tests
use pi_webrtc.Prelude.{
  ℕ, zero, suc, ◌+◌, ◌-◌, ◌%◌, ◌^◌, ◌≤◌, ◌<◌, ◌≡◌, ◌≢◌, String, Bytes, Bool, true, false, not, ◌||◌,
  Option, none, some, List, [], ◌∷◌, ◌++◌, map, length, take, drop, ltb, eqb, if◌then◌else◌,
  string_eq, nat_eq,
}
use pi_webrtc.Prelude.Dict.{lookup, insert, erase}

-- What `send` returns: a count, or -1 with EINTR, with EAGAIN or EWOULDBLOCK, or with another error.
pub data Sent : Type 0 where
  wrote : ℕ → Sent
  interrupted would_block failed : Sent

-- `send fd bytes dont_wait`, and the count that `ioctl(SIOCOUTQ)` gives, `none` for its error.
-- `delivered` is what a socket's peer has been sent, and `interrupts` bounds how often `send` is
-- still interrupted before it makes progress.
pub record Kernel : Type 1 where
  pub State : Type 0
  pub send : ℕ → Bytes → Bool → State → State × Sent
  pub unread : ℕ → State → Option ℕ
  pub delivered : ℕ → State → Bytes
  pub interrupts : State → ℕ

-- A send adds the bytes that it counts to its own socket's stream, and nothing to another's.
pub record KernelLaws (K : Kernel) : Type 0 where
  pub send_wrote :
      (fd n : ℕ) (bytes : Bytes) (dont_wait : Bool) (k : K.State)
      → (K.send fd bytes dont_wait k).1 ≡ wrote n
      → (n ≤ length bytes)
        × (K.delivered fd (K.send fd bytes dont_wait k).0 ≡ K.delivered fd k ++ take n bytes)
  pub send_nothing :
      (fd : ℕ) (bytes : Bytes) (dont_wait : Bool) (k : K.State)
      → ((n : ℕ) → (K.send fd bytes dont_wait k).1 ≢ wrote n)
      → K.delivered fd (K.send fd bytes dont_wait k).0 ≡ K.delivered fd k
  pub send_others :
      (fd g : ℕ) (bytes : Bytes) (dont_wait : Bool) (k : K.State)
      → g ≢ fd
      → K.delivered g (K.send fd bytes dont_wait k).0 ≡ K.delivered g k
  pub send_interrupts :
      (fd : ℕ) (bytes : Bytes) (dont_wait : Bool) (k : K.State)
      → (K.interrupts (K.send fd bytes dont_wait k).0 ≤ K.interrupts k)
        × ((K.send fd bytes dont_wait k).1 ≡ interrupted
            → K.interrupts (K.send fd bytes dont_wait k).0 < K.interrupts k)

-- `joinable` is whether the client's thread is joinable.
pub record Client : Type 0 where
  pub joinable : Bool
  pub sent_version : ℕ

-- Callbacks are numbers. `server_fd` is `none` for -1.
pub record Server : Type 0 where
  pub server_fd : Option ℕ
  pub running : Bool
  pub clients : List (ℕ × Client)
  pub message_callbacks : List (String × ℕ)
  pub latest : Bytes
  pub latest_version : ℕ

abbrev pub create : Server
create = record {
  server_fd = none;
  running = false;
  clients = [];
  message_callbacks = [];
  latest = [];
  latest_version = 0;
}

pub register_message_callback : String → ℕ → Server → Server
register_message_callback id callback s = record s {
  message_callbacks = insert id callback s.message_callbacks;
}

pub unregister_message_callback : String → Server → Server
unregister_message_callback id s = record s { message_callbacks = erase id s.message_callbacks }

-- What the loop of `WriteAll` does with a result of `send`: go on from a count, or end.
pub data Next : Type 0 where
  advance : ℕ → Next
  give_up : Next

abbrev pub after_send : ℕ → Sent → Next
after_send sent (wrote n) = if ltb 0 n then advance (sent + n) else give_up
after_send sent interrupted = advance sent
after_send sent would_block = give_up
after_send sent failed = give_up

abbrev version_of : Option Client → ℕ
version_of none = 0
version_of (some client) = client.sent_version

module _ (K : Kernel) where
  -- The loop goes on with `more`, or gives up.
  abbrev pub continued : (ℕ → Option (K.State × Bool)) → K.State → Next → Option (K.State × Bool)
  continued more k (advance n) = more n
  continued more k give_up = some (k, false)

  -- `WriteAll` from `sent` on; `none` if the fuel runs out.
  pub write_all : ℕ → ℕ → Bytes → ℕ → K.State → Option (K.State × Bool)
  write_all zero fd message sent k = none
  write_all (suc fuel) fd message sent k =
      let (k', result) = K.send fd (drop sent message) false k in
      let rest = continued (λ n. write_all fuel fd message n k') k' (after_send sent result) in
      if ltb sent (length message) then rest else some (k, true)

  -- A function for `SendToAll`: the socket, its client and the kernel, and whether to keep it.
  abbrev pub Sender : Type 0
  Sender = ℕ → Client → K.State → K.State × Client × Bool

  -- The loop of `SendToAll`: the clients that stay, and those whose sockets it shuts down.
  pub send_loop : Sender → List (ℕ × Client) → K.State → K.State × List (ℕ × Client) × List ℕ
  send_loop send [] k = (k, [], [])
  send_loop send ((fd, client) ∷ rest) k =
      let (k', client', keep) = send fd client k in
      let (k'', clients, stale) = send_loop send rest k' in
      (
        k'',
        (if keep then (fd, client') ∷ clients else clients),
        (if keep then stale else fd ∷ stale),
      )

  -- `SendToAll`, with the sockets that it shuts down.
  pub send_to_all : Sender → Server → K.State → K.State × Server × List ℕ
  unfolding send_loop
  send_to_all send s k =
      let (k', clients, stale) = send_loop send s.clients k in
      (k', record s { clients = clients }, stale)

  -- `WriteAll` as the sender of `Write`, on fuel that every message and kernel gets.
  pub write_fuel : Bytes → K.State → ℕ
  write_fuel message k = suc (length message + K.interrupts k)

  abbrev outcome : Client → K.State → Option (K.State × Bool) → K.State × Client × Bool
  outcome client k none = (k, client, false)
  outcome client k (some (k', sent)) = (k', client, sent)

  pub write_sender : Bytes → Sender
  unfolding write_all write_fuel
  write_sender message fd client k =
      outcome client k (write_all (write_fuel message k) fd message 0 k)

  pub write : Bytes → Server → K.State → K.State × Server × List ℕ
  unfolding write_sender send_to_all
  write message s k = send_to_all (write_sender message) s k

  -- What `SendLatest` makes of the result of `send`.
  pub sent_latest : Server → Client → K.State → Sent → K.State × Client × Bool
  sent_latest s client k (wrote n) =
      if eqb n (length s.latest)
      then (k, record client { sent_version = s.latest_version }, true)
      else (k, client, false)
  sent_latest s client k would_block = (k, client, true)
  sent_latest s client k interrupted = (k, client, true)
  sent_latest s client k failed = (k, client, false)

  try_latest : Server → ℕ → Client → K.State → Option ℕ → K.State × Client × Bool
  unfolding sent_latest
  try_latest s fd client k none = (k, client, false)
  try_latest s fd client k (some unread) =
      let (k', result) = K.send fd s.latest true k in
      if ltb 0 unread then (k, client, true) else sent_latest s client k' result

  pub send_latest : Server → Sender
  unfolding try_latest
  send_latest s fd client k =
      if eqb s.latest_version 0 || eqb client.sent_version s.latest_version
      then (k, client, true)
      else try_latest s fd client k (K.unread fd k)

  pub flush_latest : Server → K.State → K.State × Server × List ℕ
  unfolding send_latest send_to_all
  flush_latest s k = send_to_all (send_latest s) s k

  pub publish_latest : Bytes → Server → K.State → K.State × Server × List ℕ
  unfolding flush_latest
  publish_latest message s k =
      flush_latest (record s { latest = message; latest_version = (s.latest_version + 1) % 2 ^ 64 })
        k

  -- A round of `AcceptLoop` that accepts a client. `clients_[fd]` keeps an entry that is there.
  pub accept_client : ℕ → Server → K.State → K.State × Server × List ℕ
  unfolding flush_latest
  accept_client fd s k =
      flush_latest
        (record s {
          clients =
              insert fd
                (record { joinable = true; sent_version = version_of (lookup fd s.clients) })
                s.clients;
        })
        k

-- What a message from a client sets off in `HandleClient`: each callback gets it.
pub on_client_message : Bytes → Server → List (ℕ × Bytes)
on_client_message message s = map (λ entry. (entry.1, message)) s.message_callbacks

-- The end of `HandleClient`: the client goes, if `SendToAll` or `Stop` has not removed it.
pub client_left : ℕ → Server → Server
client_left fd s = record s { clients = erase fd s.clients }

-- How far the system calls of `Start` get.
pub data StartResult : Type 0 where
  socket_failed bind_failed listen_failed listening : StartResult

-- `Start` on the descriptor that `socket` gives, with the descriptors that it closes.
pub start : ℕ → StartResult → Server → Server × List ℕ
start fd socket_failed s = (record s { server_fd = none }, [])
start fd bind_failed s = (record s { server_fd = some fd }, fd ∷ [])
start fd listen_failed s = (record s { server_fd = some fd }, fd ∷ [])
start fd listening s = (record s { server_fd = some fd; running = true }, [])

abbrev listener : Option ℕ → List ℕ
listener none = []
listener (some fd) = fd ∷ []

-- `Stop`, with the descriptors that it closes. The accept thread and the clients' are joined.
pub stop : Server → Server × List ℕ
stop s = (
  record s { server_fd = none; running = false; clients = [] },
  listener s.server_fd ++ map (λ entry. entry.0) s.clients,
)
