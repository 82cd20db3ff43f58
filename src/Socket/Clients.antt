-- ===== src/Socket/Clients.antt =====
-- `SendToAll`: every client is served once, and a client that cannot be served goes.
use pi_webrtc.Prelude.{
  ℕ, ◌≡◌, ◌≢◌, refl, sym, subst, ◌∙◌, inl, inr, Bytes, Bool, true, false, Option, none, some, List,
  [], ◌∷◌, not, eqb, if◌then◌else◌, Bool-cases, nat_eq, ==_iff, arith,
}
use pi_webrtc.Prelude.Dict.{lookup, Distinct}
use pi_webrtc.Socket.{Kernel, Client, Sender, send_loop}

abbrev pub contains : ℕ → List ℕ → Bool
contains a [] = false
contains a (x ∷ xs) = if eqb x a then true else contains a xs

module _ (K : Kernel) where
  -- A sender leaves other sockets alone, and `Serves` holds of a client, what its socket was sent
  -- before and after, the client afterwards, and whether it is kept.
  pub record IsSender (send : Sender K) (Serves : Client → Bytes → Bytes → Client → Bool → Type 0)
      : Type 0 where
    pub local :
        (fd g : ℕ) (client : Client) (k : K.State)
        → g ≢ fd
        → K.delivered g (send fd client k).0 ≡ K.delivered g k
    pub serves :
        (fd : ℕ) (client : Client) (k : K.State)
        → let (k', client', keep) = send fd client k in
          Serves client (K.delivered fd k) (K.delivered fd k') client' keep

  -- What a round over all clients does to the one on a socket: it was served and stays, or was
  -- served and its socket is shut down; a socket that is no client's is left alone.
  pub data Served (Serves : Client → Bytes → Bytes → Client → Bool → Type 0) (fd : ℕ)
      (k k' : K.State) (clients clients' : List (ℕ × Client)) (stale : List ℕ) : Type 0 where
    kept :
        (c c' : Client)
        → lookup fd clients ≡ some c
        → lookup fd clients' ≡ some c'
        → Serves c (K.delivered fd k) (K.delivered fd k') c' true
        → Served Serves fd k k' clients clients' stale
    shut :
        (c c' : Client)
        → lookup fd clients ≡ some c
        → lookup fd clients' ≡ none
        → contains fd stale ≡ true
        → Serves c (K.delivered fd k) (K.delivered fd k') c' false
        → Served Serves fd k k' clients clients' stale
    no_client :
        lookup fd clients ≡ none
        → lookup fd clients' ≡ none
        → K.delivered fd k' ≡ K.delivered fd k
        → Served Serves fd k k' clients clients' stale

  module _ (send : Sender K) (Serves : Client → Bytes → Bytes → Client → Bool → Type 0)
      (is_sender : IsSender send Serves) where
    -- The round behind a first client that sits on another socket.
    behind :
        (fd j : ℕ) (client client' : Client) (k k₁ k' : K.State) (keep : Bool)
        (rest clients : List (ℕ × Client)) (stale : List ℕ)
        → fd ≢ j
        → K.delivered fd k₁ ≡ K.delivered fd k
        → Served Serves fd k₁ k' rest clients stale
        → Served Serves fd k k'
            ((j, client) ∷ rest)
            (if keep then (j, client') ∷ clients else clients)
            (if keep then stale else j ∷ stale)
    behind fd j client client' k k₁ k' keep rest clients stale ne e (kept c c' p q s) =
        kept c c' (ground (arith, ==_iff j fd)) (later clients (some c') q)
          (subst (λ b. Serves c b (K.delivered fd k') c' true) e s)
      where
        later :
            (m : List (ℕ × Client)) (o : Option Client)
            → lookup fd m ≡ o
            → lookup fd (if keep then (j, client') ∷ m else m) ≡ o
        later m o h = ground (arith, ==_iff j fd)
    behind fd j client client' k k₁ k' keep rest clients stale ne e (shut c c' p q m s) =
        shut c c' (ground (arith, ==_iff j fd)) (ground (arith, ==_iff j fd)) (ground arith)
          (subst (λ b. Serves c b (K.delivered fd k') c' false) e s)
    behind fd j client client' k k₁ k' keep rest clients stale ne e (no_client p q s) =
        no_client (ground (arith, ==_iff j fd)) (ground (arith, ==_iff j fd)) (s ∙ e)

    -- The round at the first client itself, whose socket the rest leaves alone.
    first :
        (fd : ℕ) (client client' : Client) (k k₁ k' : K.State) (keep : Bool)
        (rest clients : List (ℕ × Client)) (stale : List ℕ)
        → lookup fd rest ≡ none
        → Serves client (K.delivered fd k) (K.delivered fd k₁) client' keep
        → Served Serves fd k₁ k' rest clients stale
        → Served Serves fd k k'
            ((fd, client) ∷ rest)
            (if keep then (fd, client') ∷ clients else clients)
            (if keep then stale else fd ∷ stale)
    first fd client client' k k₁ k' keep rest clients stale free s (kept c c' p q s') = absurd (cc)
    first fd client client' k k₁ k' keep rest clients stale free s (shut c c' p q m s') =
        absurd (cc)
    first fd client client' k k₁ k' true rest clients stale free s (no_client p q e) =
        kept client client' (ground (arith, ==_iff fd fd)) (ground (arith, ==_iff fd fd))
          (subst (λ b. Serves client (K.delivered fd k) b client' true) (sym e) s)
    first fd client client' k k₁ k' false rest clients stale free s (no_client p q e) =
        shut client client' (ground (arith, ==_iff fd fd)) q (ground arith)
          (subst (λ b. Serves client (K.delivered fd k) b client' false) (sym e) s)

    pub send_loop-Served :
        (fd : ℕ) (clients : List (ℕ × Client)) (k : K.State)
        → Distinct clients
        → let (k', clients', stale) = send_loop K send clients k in
          Served Serves fd k k' clients clients' stale
    unfolding send_loop
    send_loop-Served fd [] k d = no_client refl refl refl
    send_loop-Served fd ((j, client) ∷ rest) k d =
        let (k₁, client', keep) = send j client k in
        let (k', clients, stale) = send_loop K send rest k₁ in
        elim (Bool-cases (eqb fd j)) [
          | inl same ↦
              let e : fd ≡ j = ground arith in
              subst
                (λ x.
                  Served Serves x k k' ((j, client) ∷ rest)
                    (if keep then (j, client') ∷ clients else clients)
                    (if keep then stale else j ∷ stale))
                (sym e)
                (first j client client' k k₁ k' keep rest clients stale d.0
                  (is_sender.serves j client k) (send_loop-Served j rest k₁ d.1))
          | inr other ↦
              behind fd j client client' k k₁ k' keep rest clients stale (ground arith)
                (is_sender.local j fd client k (ground arith)) (send_loop-Served fd rest k₁ d.1)
        ]

  -- The clients that a round comes to before the one on a socket.
  abbrev pub ahead : ℕ → List (ℕ × Client) → List (ℕ × Client)
  ahead fd [] = []
  ahead fd ((j, client) ∷ rest) = if eqb fd j then [] else (j, client) ∷ ahead fd rest

  pub ahead-none :
      (fd : ℕ) (clients : List (ℕ × Client))
      → lookup fd clients ≡ none
      → lookup fd (ahead fd clients) ≡ none
  ahead-none fd [] h = refl
  ahead-none fd ((j, client) ∷ rest) h = ground (arith, ==_iff j fd, ahead-none fd rest)

  module _ (send : Sender K)
      (local : (fd g : ℕ) (client : Client) (k : K.State)
        → g ≢ fd
        → K.delivered g (send fd client k).0 ≡ K.delivered g k) where
    -- A round leaves a socket alone that is no client's.
    pub send_loop-others :
        (fd : ℕ) (clients : List (ℕ × Client)) (k : K.State)
        → lookup fd clients ≡ none
        → let (k', clients', stale) = send_loop K send clients k in
          (K.delivered fd k' ≡ K.delivered fd k)
          × (lookup fd clients' ≡ none)
          × (contains fd stale ≡ false)
    unfolding send_loop
    send_loop-others fd [] k h = (refl, refl, refl)
    send_loop-others fd ((j, client) ∷ rest) k h =
        let (k₁, client', keep) = send j client k in
        let ne : fd ≢ j = ground (arith, ==_iff j fd) in
        let (same, absent, stays) = send_loop-others fd rest k₁ (ground (arith, ==_iff j fd)) in
        (same ∙ local j fd client k ne, ground (arith, ==_iff j fd, absent), ground (arith, stays))

    -- What a round does to a client at its turn, and does not do to it before or after.
    abbrev Turn : ℕ → Client → List (ℕ × Client) → K.State → Type 0
    Turn fd c clients k =
        let (k', clients', stale) = send_loop K send clients k in
        let k₁ = (send_loop K send (ahead fd clients) k).0 in
        let (k₂, c', keep) = send fd c k₁ in
        (K.delivered fd k₁ ≡ K.delivered fd k)
        × (K.delivered fd k' ≡ K.delivered fd k₂)
        × (lookup fd clients' ≡ (if keep then some c' else none))
        × (contains fd stale ≡ not keep)

    first-Turn :
        (fd : ℕ) (c : Client) (rest : List (ℕ × Client)) (k : K.State)
        → lookup fd rest ≡ none
        → Turn fd c ((fd, c) ∷ rest) k
    unfolding send_loop
    first-Turn fd c rest k h =
        let (k₁, c', keep) = send fd c k in
        let (same, absent, stays) = send_loop-others fd rest k₁ h in
        let here : eqb fd fd ≡ true = ground arith in
        rw here (refl, same, ground (arith, ==_iff fd fd, absent), ground (arith, stays))

    -- A round comes to a client once, behind those ahead of it, and deals with it by what it is then.
    pub send_loop-Turn :
        (fd : ℕ) (c : Client) (clients : List (ℕ × Client)) (k : K.State)
        → Distinct clients
        → lookup fd clients ≡ some c
        → Turn fd c clients k
    unfolding send_loop
    send_loop-Turn fd c [] k d h = cc
    send_loop-Turn fd c ((j, client) ∷ rest) k d h = elim (Bool-cases (eqb fd j)) [
      | inl same ↦
          let e : j ≡ fd = ground arith in
          let e' : client ≡ c = ground (arith, ==_iff j fd) in
          subst (λ x. Turn fd c ((x, client) ∷ rest) k) (sym e)
            (subst (λ x. Turn fd c ((fd, x) ∷ rest) k) (sym e')
              (first-Turn fd c rest k (subst (λ x. lookup x rest ≡ none) e d.0)))
      | inr other ↦
          let (k₁, client', keep) = send j client k in
          let ne : fd ≢ j = ground arith in
          let (before, after, entry, stays) =
            send_loop-Turn fd c rest k₁ d.1 (ground (arith, ==_iff j fd)) in
          rw other (
            before ∙ local j fd client k ne,
            after,
            ground (arith, ==_iff j fd, entry),
            ground (arith, stays),
          )
    ]
