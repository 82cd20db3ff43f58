-- ===== src/Socket/Publish.antt =====
-- `PublishLatest`: what it does with each client and its socket.
use pi_webrtc.Prelude.{
  ℕ, zero, suc, not, Option, none, some, List, subst, if◌then◌else◌, ◌+◌, ◌%◌, ◌^◌, ◌≡◌, ◌≢◌, refl,
  sym, ap, ◌∙◌, ◌⊎◌, inl, inr, Bytes, Bool, true, false, ◌++◌, length, take, ltb, eqb, Bool-cases,
  ◌||◌, Option-cases, arith, take-all, nat_eq,
}
use pi_webrtc.Prelude.Dict.{lookup, Distinct}
use pi_webrtc.Socket.{
  Kernel, KernelLaws, Sent, wrote, interrupted, would_block, failed, Client, Server, send_to_all,
  send_loop, sent_latest, try_latest, send_latest, publish_latest,
}
use pi_webrtc.Socket.Clients.{contains, ahead, ahead-none, send_loop-others, send_loop-Turn}

-- The client has not had the server's latest message.
abbrev pub IsBehind : Server → Client → Type 0
IsBehind s c = (s.latest_version ≢ 0) × (c.sent_version ≢ s.latest_version)

-- The server that `PublishLatest` flushes.
abbrev pub published : Bytes → Server → Server
published message s = record s {
  latest = message;
  latest_version = (s.latest_version + 1) % 2 ^ 64;
}

module _ (K : Kernel) where
  -- What `FlushLatest` does with a client, by what the kernel says at its turn: what its socket has been sent
  -- before and after, its entry afterwards, and whether its socket is shut.
  pub data LatestTurn (s : Server) (fd : ℕ) (c : Client) (k : K.State) (before after : Bytes)
      (entry : Option Client) (shut : Bool) : Type 0 where
    current :
        (s.latest_version ≡ 0) ⊎ (c.sent_version ≡ s.latest_version)
        → after ≡ before
        → entry ≡ some c
        → shut ≡ false
        → LatestTurn s fd c k before after entry shut
    unreadable :
        IsBehind s c
        → K.unread fd k ≡ none
        → after ≡ before
        → entry ≡ none
        → shut ≡ true
        → LatestTurn s fd c k before after entry shut
    holding :
        (n : ℕ)
        → IsBehind s c
        → K.unread fd k ≡ some (suc n)
        → after ≡ before
        → entry ≡ some c
        → shut ≡ false
        → LatestTurn s fd c k before after entry shut
    whole :
        IsBehind s c
        → K.unread fd k ≡ some 0
        → (K.send fd s.latest true k).1 ≡ wrote (length s.latest)
        → after ≡ before ++ s.latest
        → entry ≡ some (record c { sent_version = s.latest_version })
        → shut ≡ false
        → LatestTurn s fd c k before after entry shut
    busy :
        IsBehind s c
        → K.unread fd k ≡ some 0
        → ((K.send fd s.latest true k).1 ≡ would_block)
          ⊎ ((K.send fd s.latest true k).1 ≡ interrupted)
        → after ≡ before
        → entry ≡ some c
        → shut ≡ false
        → LatestTurn s fd c k before after entry shut
    short :
        (n : ℕ)
        → IsBehind s c
        → K.unread fd k ≡ some 0
        → (K.send fd s.latest true k).1 ≡ wrote n
        → n ≢ length s.latest
        → after ≡ before ++ take n s.latest
        → entry ≡ none
        → shut ≡ true
        → LatestTurn s fd c k before after entry shut
    broken :
        IsBehind s c
        → K.unread fd k ≡ some 0
        → (K.send fd s.latest true k).1 ≡ failed
        → after ≡ before
        → entry ≡ none
        → shut ≡ true
        → LatestTurn s fd c k before after entry shut

  -- The same of a socket that may be no client's.
  abbrev pub TurnAt :
      Server → ℕ → Option Client → K.State → Bytes → Bytes → Option Client → Bool → Type 0
  TurnAt s fd none k before after entry shut = (after ≡ before) × (entry ≡ none) × (shut ≡ false)
  TurnAt s fd (some c) k before after entry shut = LatestTurn s fd c k before after entry shut

  -- The message is the latest, under the next version, and the socket had its turn behind the clients ahead of it.
  abbrev pub IsPublished : Bytes → Server → K.State → ℕ → K.State × Server × List ℕ → Type 0
  IsPublished message s k fd (k', s', stale) =
      let s₁ = published message s in
      let k₁ = (send_loop K (send_latest K s₁) (ahead K fd s.clients) k).0 in
      (s'.latest ≡ message)
      × (s'.latest_version ≡ s₁.latest_version)
      × (K.delivered fd k₁ ≡ K.delivered fd k)
      × TurnAt s₁ fd (lookup fd s.clients) k₁ (K.delivered fd k) (K.delivered fd k')
          (lookup fd s'.clients) (contains fd stale)

module _ (K : Kernel) (laws : KernelLaws K) where
  -- The ways through `SendLatest`.
  send_latest_cases :
      (P : K.State × Client × Bool → Type 0) (s : Server) (fd : ℕ) (client : Client) (k : K.State)
      → P (k, client, true)
      → P (k, client, false)
      → (client.sent_version ≢ s.latest_version
          → P (sent_latest K s client (K.send fd s.latest true k).0 (K.send fd s.latest true k).1))
      → P (send_latest K s fd client k)
  unfolding send_latest
  send_latest_cases P s fd client k stay go sent =
      elim (Bool-cases (eqb s.latest_version 0 || eqb client.sent_version s.latest_version)) [
        | inl had ↦ rw (had, send_latest) stay
        | inr new ↦ elim (Option-cases (K.unread fd k)) [
          | inl error ↦ rw (new, error, try_latest) go
          | inr (n, e) ↦ elim (Bool-cases (ltb 0 n)) [
            | inl full ↦ rw (new, e, try_latest, full) stay
            | inr room ↦ rw (new, e, try_latest, room) (sent (ground arith))
          ]
        ]
      ]

  sent_latest-state :
      (s : Server) (client : Client) (k : K.State) (r : Sent) → (sent_latest K s client k r).0 ≡ k
  unfolding sent_latest
  sent_latest-state s client k (wrote n) = elim (Bool-cases (eqb n (length s.latest))) [
    | inl all ↦ rw all refl
    | inr part ↦ rw part refl
  ]
  sent_latest-state s client k interrupted = refl
  sent_latest-state s client k would_block = refl
  sent_latest-state s client k failed = refl

  sent_latest-LatestTurn :
      (s : Server) (fd : ℕ) (c : Client) (k : K.State) (r : Sent)
      → IsBehind s c
      → K.unread fd k ≡ some 0
      → (K.send fd s.latest true k).1 ≡ r
      → let (k', c', keep) = sent_latest K s c (K.send fd s.latest true k).0 r in
        LatestTurn K s fd c k
          (K.delivered fd k)
          (K.delivered fd k')
          (if keep then some c' else none)
          (not keep)
  unfolding sent_latest
  sent_latest-LatestTurn s fd c k (wrote n) behind e r =
      let (fits, delivered) = laws.send_wrote fd n s.latest true k r in
      elim (Bool-cases (eqb n (length s.latest))) [
        | inl all ↦
            let n_all : n ≡ length s.latest = ground arith in
            rw all (
              whole behind e (r ∙ ap wrote n_all)
                (delivered
                  ∙ ap (◌++◌ (K.delivered fd k)) (take-all n s.latest (omega (arith, n_all))))
                refl refl)
        | inr part ↦ rw part (short n behind e r (ground arith) delivered refl refl)
      ]
  sent_latest-LatestTurn s fd c k interrupted behind e r =
      busy behind e (inr r) (laws.send_nothing fd s.latest true k (λ n x. cc (sym r ∙ x))) refl refl
  sent_latest-LatestTurn s fd c k would_block behind e r =
      busy behind e (inl r) (laws.send_nothing fd s.latest true k (λ n x. cc (sym r ∙ x))) refl refl
  sent_latest-LatestTurn s fd c k failed behind e r =
      broken behind e r (laws.send_nothing fd s.latest true k (λ n x. cc (sym r ∙ x))) refl refl

  -- A client's turn in a round of `FlushLatest`, for each of its ways.
  send_latest-LatestTurn :
      (s : Server) (fd : ℕ) (c : Client) (k : K.State)
      → let (k', c', keep) = send_latest K s fd c k in
        LatestTurn K s fd c k
          (K.delivered fd k)
          (K.delivered fd k')
          (if keep then some c' else none)
          (not keep)
  unfolding send_latest try_latest
  send_latest-LatestTurn s fd c k =
      elim (Bool-cases (eqb s.latest_version 0 || eqb c.sent_version s.latest_version)) [
        | inl had ↦ rw had (current (ground arith) refl refl refl)
        | inr new ↦
            let behind : IsBehind s c = (ground arith, ground arith) in
            elim (Option-cases (K.unread fd k)) [
              | inl error ↦ rw (new, error) (unreadable behind error refl refl refl)
              | inr (zero, e) ↦
                  rw (new, e)
                    (sent_latest-LatestTurn s fd c k (K.send fd s.latest true k).1 behind e refl)
              | inr (suc n, e) ↦
                  let full : ltb 0 (suc n) ≡ true = ground arith in
                  rw (new, e, full) (holding n behind e refl refl refl)
            ]
      ]

  LatestTurn-from :
      (s : Server) (fd : ℕ) (c : Client) (k : K.State) {before : Bytes}
      → K.delivered fd k ≡ before
      → let (k', c', keep) = send_latest K s fd c k in
        LatestTurn K s fd c k before (K.delivered fd k') (if keep then some c' else none) (not keep)
  LatestTurn-from s fd c k e =
      let (k', c', keep) = send_latest K s fd c k in
      subst
        (λ b.
          LatestTurn K s fd c k b (K.delivered fd k') (if keep then some c' else none) (not keep))
        e (send_latest-LatestTurn s fd c k)

  latest-others :
      (s : Server) (fd g : ℕ) (c : Client) (k : K.State)
      → g ≢ fd
      → K.delivered g (send_latest K s fd c k).0 ≡ K.delivered g k
  latest-others s fd g c k ne =
      send_latest_cases (λ r. K.delivered g r.0 ≡ K.delivered g k) s fd c k refl refl
        (λ _.
          ap (K.delivered g)
            (sent_latest-state s c (K.send fd s.latest true k).0 (K.send fd s.latest true k).1)
          ∙ laws.send_others fd g s.latest true k ne)

  -- On a kernel that keeps its laws, `PublishLatest` of a server that lists each client once makes its
  -- message the latest, under the next version, and comes to each client once, at a moment when its
  -- socket has been sent what it had before. A client that has had the version, or any where the
  -- version comes round to 0, or whose socket still holds unread bytes then, stays and is sent
  -- nothing. Another is sent the message by one `send`: where it takes the whole, the client stays and
  -- is marked with the version; where it would block or is interrupted, the client stays as it is;
  -- where it takes a part or fails, or where the unread bytes cannot be told, the client goes and its
  -- socket is shut. No other socket is sent anything.
  pub publish_latest-IsPublished :
      (message : Bytes) (s : Server) (k : K.State) (fd : ℕ)
      → Distinct s.clients
      → IsPublished K message s k fd (publish_latest K message s k)
  unfolding publish_latest send_to_all
  publish_latest-IsPublished message s k fd d =
      let s₁ = published message s in
      elim (Option-cases (lookup fd s.clients)) [
        | inl missing ↦
            let others = send_loop-others K (send_latest K s₁) (latest-others s₁) fd in
            let (after, entry, stays) = others s.clients k missing in
            let (before, _, _) =
              others (ahead K fd s.clients) k (ahead-none K fd s.clients missing) in
            (refl, refl, before, rw missing (after, entry, stays))
        | inr (c, found) ↦
            let (before, after, entry, stays) =
              send_loop-Turn K (send_latest K s₁) (latest-others s₁) fd c s.clients k d found in
            (refl, refl, before, rw (found, after, entry, stays) (LatestTurn-from s₁ fd c _ before))
      ]

module _ (K : Kernel) where
  pub latest-publish_latest :
      (message : Bytes) (s : Server) (k : K.State)
      → ((publish_latest K message s k).1).latest ≡ message
  unfolding publish_latest send_to_all
  latest-publish_latest message s k = refl
