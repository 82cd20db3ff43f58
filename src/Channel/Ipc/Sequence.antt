-- ===== src/Channel/Ipc/Sequence.antt =====
-- `AcceptSequence`: what a lossy channel lets through, and the bounds of `OnStreamChunk`.
use pi_webrtc.Prelude.{
  ℕ, ◌+◌, ◌≤◌, ◌<◌, ◌≡◌, ◌≢◌, ap₂, String, Bool, true, List, [], ◌∷◌, All, ==_iff, string_eq,
  pair_eq, arith,
}
use pi_webrtc.Prelude.Dict.{lookup, lookup-insert}
use pi_webrtc.Channel.Role.{lossy}
use pi_webrtc.Channel.Ipc.{
  Endpoints, IpcChannel, LastSequence, last_of, sequence_reset_gap, accept_sequence,
}

-- A call of `AcceptSequence`.
pub record Arrival : Type 0 where
  pub now : ℕ
  pub remote_id : String
  pub endpoint : String
  pub sequence : ℕ

abbrev pub Soon : Arrival → Arrival → Type 0
Soon a b = (a.now ≤ b.now) × (b.now < a.now + sequence_reset_gap)

module _ {E : Endpoints} where
  unfoldable pub accept : IpcChannel E → Arrival → IpcChannel E × Bool
  accept c a = accept_sequence a.now a.remote_id a.endpoint a.sequence c

  unfoldable pub accept_all : IpcChannel E → List Arrival → IpcChannel E
  unfolding accept
  accept_all c [] = c
  accept_all c (a ∷ as') = accept_all (accept c a).0 as'

  abbrev last : Arrival → IpcChannel E → LastSequence
  last a c = last_of (lookup (a.remote_id, a.endpoint) c.last_sequence)

  -- The last number let through for `a`'s sender and endpoint is `a`'s at least, and no older.
  record Since (a : Arrival) (c : IpcChannel E) : Type 0 where
    is_lossy_channel : c.role ≡ lossy
    sequence : a.sequence ≤ (last a c).sequence
    time : a.now ≤ (last a c).received_at

  accept-Since :
      (a b : Arrival) (c : IpcChannel E)
      → b.now < a.now + sequence_reset_gap
      → a.now ≤ b.now
      → Since a c
      → Since a (accept c b).0
  unfolding accept accept_sequence
  accept-Since a b c h k s = ground (
    arith,
    ==_iff {K = String × String} (b.remote_id, b.endpoint) (a.remote_id, a.endpoint),
    lookup-insert {K = String × String} (b.remote_id, b.endpoint) (a.remote_id, a.endpoint)
        (last b c) c.last_sequence,
    lookup-insert {K = String × String} (b.remote_id, b.endpoint) (a.remote_id, a.endpoint)
        (record { sequence = b.sequence; received_at = b.now }) c.last_sequence,
  )

  accept_all-Since :
      (a : Arrival) (bs : List Arrival) (c : IpcChannel E)
      → All (Soon a) bs
      → Since a c
      → Since a (accept_all c bs)
  unfolding accept_all
  accept_all-Since a [] c h s = s
  accept_all-Since a (b ∷ bs) c h s =
      accept_all-Since a bs (accept c b).0 h.1 (accept-Since a b c (h.0).1 (h.0).0 s)

  accepted-Since :
      (a : Arrival) (c : IpcChannel E)
      → c.role ≡ lossy
      → a.sequence ≢ 0
      → (accept c a).1 ≡ true
      → Since a (accept c a).0
  unfolding accept accept_sequence
  accepted-Since a c l n h = ground (
    arith,
    ==_iff {K = String × String} (a.remote_id, a.endpoint) (a.remote_id, a.endpoint),
    lookup-insert {K = String × String} (a.remote_id, a.endpoint) (a.remote_id, a.endpoint)
        (record { sequence = a.sequence; received_at = a.now }) c.last_sequence,
  )

  increasing :
      (a b : Arrival) (c : IpcChannel E)
      → b.sequence ≢ 0
      → b.remote_id ≡ a.remote_id
      → b.endpoint ≡ a.endpoint
      → Soon a b
      → Since a c
      → (accept c b).1 ≡ true
      → a.sequence < b.sequence
  unfolding accept accept_sequence
  increasing a b c m r e now s h =
      let same : last b c ≡ last a c =
        cc (ap₂ (λ (x y : String). last_of (lookup (x, y) c.last_sequence)) r e) in
      ground (arith, same)

  -- On a lossy channel, once a numbered packet is accepted, a later numbered packet from the same
  -- sender for the same endpoint is accepted within a second only if its number is greater,
  -- whatever else arrives in that second.
  pub accept_sequence-increasing :
      (c : IpcChannel E) (a : Arrival) (bs : List Arrival) (b : Arrival)
      → c.role ≡ lossy
      → a.sequence ≢ 0
      → b.sequence ≢ 0
      → b.remote_id ≡ a.remote_id
      → b.endpoint ≡ a.endpoint
      → All (Soon a) bs
      → Soon a b
      → (accept c a).1 ≡ true
      → (accept (accept_all (accept c a).0 bs) b).1 ≡ true
      → a.sequence < b.sequence
  unfolding accept accept_sequence
  accept_sequence-increasing c a bs b l n m r e soon now first second =
      increasing a b (accept_all (accept c a).0 bs) m r e now
        (accept_all-Since a bs (accept c a).0 soon (accepted-Since a c l n first)) second
