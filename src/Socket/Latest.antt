-- ===== src/Socket/Latest.antt =====
-- `Write`: what each client's socket is sent.
use pi_webrtc.Prelude.{
  ℕ, ◌+◌, ◌-◌, ◌<◌, ◌≡◌, refl, ap, ◌∙◌, Bytes, Bool, true, false, ◌++◌, length, take, arith,
  take-all, nat_eq,
}
use pi_webrtc.Prelude.Dict.{Distinct}
use pi_webrtc.Socket.{
  Kernel, KernelLaws, Client, Server, send_to_all, write_sender, write, write_fuel,
}
use pi_webrtc.Socket.WriteAll.{Wrote, write_all_total}
use pi_webrtc.Socket.Clients.{IsSender, Served, send_loop-Served}

-- A client that stays was sent the whole message and is as it was, one that goes a front part.
abbrev pub GetsMessage : Bytes → Client → Bytes → Bytes → Client → Bool → Type 0
GetsMessage message c before after c' true = (after ≡ before ++ message) × (c' ≡ c)
GetsMessage message c before after c' false = (n : ℕ) × (after ≡ before ++ take n message)

fuel_enough :
    (K : Kernel) (message : Bytes) (k : K.State)
    → (length message - 0) + K.interrupts k < write_fuel K message k
unfolding write_fuel
fuel_enough K message k = omega arith

module _ (K : Kernel) (laws : KernelLaws K) where
  write_sender_lem :
      (message : Bytes) (fd : ℕ) (client : Client) (k : K.State)
      → (k' : K.State) × (result : Bool) × (write_sender K message fd client k
          ≡ (k', client, result))
        × Wrote K laws fd 0 message k k' result
  unfolding write_sender
  write_sender_lem message fd client k =
      let (k', result, run, w) =
        write_all_total K laws fd message (write_fuel K message k) 0 k (omega arith)
          (fuel_enough K message k) in
      (k', result, rw run refl, w)

  message-gets :
      (message : Bytes) (fd : ℕ) (client : Client) (k k' : K.State) (result : Bool)
      → Wrote K laws fd 0 message k k' result
      → GetsMessage message client (K.delivered fd k) (K.delivered fd k') client result
  message-gets message fd client k k' true w = (
    w.delivered ∙ ap (◌++◌ (K.delivered fd k)) (take-all w.n message (omega (arith, w.whole refl))),
    refl,
  )
  message-gets message fd client k k' false w = (w.n, w.delivered)

  write-IsSender : (message : Bytes) → IsSender K (write_sender K message) (GetsMessage message)
  write-IsSender message = record {
    local = λ fd g client k ne.
        let (k', result, run, w) = write_sender_lem message fd client k in rw run (w.others g ne);
    serves = λ fd client k.
        let (k', result, run, w) = write_sender_lem message fd client k in
        rw run (message-gets message fd client k k' result w);
  }

  -- On a kernel that keeps its laws, `Write` of a server that lists each client once sends
  -- every client the whole message, or a front part and then shuts its socket and drops it,
  -- and sends no other socket anything.
  pub write-Served :
      (message : Bytes) (s : Server) (k : K.State) (fd : ℕ)
      → Distinct s.clients
      → let (k', s', stale) = write K message s k in
        Served K (GetsMessage message) fd k k' s.clients s'.clients stale
  unfolding write send_to_all
  write-Served message s k fd d =
      send_loop-Served K (write_sender K message) (GetsMessage message) (write-IsSender message) fd
        s.clients k d
