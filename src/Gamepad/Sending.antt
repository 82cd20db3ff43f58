-- ===== src/Gamepad/Sending.antt =====
-- Which gamepads a snapshot shows.
use pi_webrtc.Prelude.{
  ℕ, ◌-◌, ◌≡◌, refl, sym, ap, subst, ◌∙◌, ◌⊎◌, inl, inr, String, Bytes, Option, none, some, List,
  [], ◌∷◌, ltb, if◌then◌else◌, Option-cases, ◌==◌, ==_iff, string_eq, nat_eq, arith,
}
use pi_webrtc.Prelude.Dict.{
  lookup, insert, erase, Distinct, lookup-insert, lookup-erase, insert-Distinct, erase-Distinct,
}
use pi_webrtc.Socket.{Kernel, KernelLaws}
use pi_webrtc.Socket.Publish.{latest-publish_latest, IsPublished, publish_latest-IsPublished}
use pi_webrtc.Gamepad.{
  Libraries, InputReport, Pad, Gamepad, GamepadEndpoint, timeout, prune, to_json, snapshot_line,
  publish, store, write, on_remote_closed,
}

module _ (L : Libraries) where
  -- The gamepad, unless it has been silent for longer than the timeout.
  abbrev pub still_sending : ℕ → Option (Gamepad L) → Option (Gamepad L)
  still_sending now none = none
  still_sending now (some g) = if ltb timeout (now - g.last_received) then none else some g

  lookup-prune :
      (now : ℕ) (id : String) (gs : List (String × Gamepad L))
      → Distinct gs
      → lookup id (prune L now gs) ≡ still_sending now (lookup id gs)
  unfolding prune
  lookup-prune now id [] d = refl
  lookup-prune now id ((j, g) ∷ gs) d = ground (arith, ==_iff j id, lookup-prune now id gs d.1)

  prune-Distinct :
      (now : ℕ) (gs : List (String × Gamepad L)) → Distinct gs → Distinct (prune L now gs)
  unfolding prune
  prune-Distinct now [] d = tt
  prune-Distinct now ((j, g) ∷ gs) d =
      ground (arith, lookup-prune now j gs d.1, prune-Distinct now gs d.1)

  module _ (K : Kernel) where
    -- The server's latest message is a snapshot of the gamepads.
    abbrev pub Published : ℕ → GamepadEndpoint L → Type 0
    Published now e = e.server.latest ≡ snapshot_line L now e.gamepads

    publish-Published :
        (now : ℕ) (e : GamepadEndpoint L) (k : K.State)
        → (((publish L K now e k).1).gamepads ≡ e.gamepads) × Published now (publish L K now e k).1
    unfolding publish
    publish-Published now e k =
        (refl, latest-publish_latest K (snapshot_line L now e.gamepads) e.server k)

    -- What `Write` does with a report that has a gamepad part.
    write-store :
        (now : ℕ) (remote_id : String) (payload : Bytes) (report : InputReport L.F) (pad : Pad L.F)
        (e : GamepadEndpoint L) (k : K.State)
        → L.read_report payload ≡ some report
        → report.gamepad ≡ some pad
        → write L K now remote_id payload e k ≡ store L K now remote_id report pad e k
    unfolding write
    write-store now remote_id payload report pad e k r p = rw (r, write) (rw (p, write))

    write-Published :
        (now : ℕ) (remote_id : String) (report : InputReport L.F) (pad : Pad L.F)
        (e : GamepadEndpoint L) (k : K.State)
        → let entry : Gamepad L = record { state = to_json L report pad; last_received = now } in
          let e' = (store L K now remote_id report pad e k).1 in
          (e'.gamepads ≡ prune L now (insert remote_id entry e.gamepads)) × Published now e'
    unfolding store
    write-Published now remote_id report pad e k =
        let entry : Gamepad L = record { state = to_json L report pad; last_received = now } in
        publish-Published now
          (record e { gamepads = prune L now (insert remote_id entry e.gamepads) }) k

    -- The snapshot of the gamepads goes out, through `PublishLatest`.
    publish-IsPublished :
        (laws : KernelLaws K) (now : ℕ) (e : GamepadEndpoint L) (k : K.State) (fd : ℕ)
        → Distinct e.server.clients
        → let (k', e', stale) = publish L K now e k in
          IsPublished K (snapshot_line L now e.gamepads) e.server k fd (k', e'.server, stale)
    unfolding publish
    publish-IsPublished laws now e k fd d =
        publish_latest-IsPublished K laws (snapshot_line L now e.gamepads) e.server k fd d

    store-IsPublished :
        (laws : KernelLaws K) (now : ℕ) (remote_id : String) (report : InputReport L.F)
        (pad : Pad L.F) (e : GamepadEndpoint L) (k : K.State) (fd : ℕ)
        → Distinct e.server.clients
        → let (k', e', stale) = store L K now remote_id report pad e k in
          IsPublished K (snapshot_line L now e'.gamepads) e.server k fd (k', e'.server, stale)
    unfolding store
    store-IsPublished laws now remote_id report pad e k fd d =
        let entry : Gamepad L = record { state = to_json L report pad; last_received = now } in
        let e' : GamepadEndpoint L = record e {
          gamepads = prune L now (insert remote_id entry e.gamepads);
        } in
        let (k', published, stale) = publish L K now e' k in
        subst
          (λ gs. IsPublished K (snapshot_line L now gs) e.server k fd (k', published.server, stale))
          (sym (publish-Published now e' k).0) (publish-IsPublished laws now e' k fd d)

    -- Where each gamepad is listed once, and each client of the server, on a kernel that keeps its
    -- laws: a report with a gamepad part makes its sender's entry, at the time of its arrival, and
    -- drops each gamepad silent for more than half a second; the others stay as they are. The snapshot
    -- of just these becomes the server's latest message, and each client has its turn: it is sent the
    -- whole snapshot where it has not had the version, which is not 0, has nothing unread and its
    -- socket takes it at once, and otherwise is left for the next snapshot or dropped as in
    -- `PublishLatest`.
    pub write-sending :
        (laws : KernelLaws K) (now : ℕ) (remote_id : String) (payload : Bytes)
        (report : InputReport L.F) (pad : Pad L.F) (e : GamepadEndpoint L) (k : K.State) (fd : ℕ)
        → Distinct e.gamepads
        → Distinct e.server.clients
        → L.read_report payload ≡ some report
        → report.gamepad ≡ some pad
        → let (k', e', stale) = write L K now remote_id payload e k in
          ((id : String)
            → lookup id e'.gamepads ≡ (
                if remote_id == id
                then some (record { state = to_json L report pad; last_received = now })
                else still_sending now (lookup id e.gamepads)))
          × Distinct e'.gamepads
          × IsPublished K (snapshot_line L now e'.gamepads) e.server k fd (k', e'.server, stale)
    unfolding write
    write-sending laws now remote_id payload report pad e k fd d c r p =
        let entry : Gamepad L = record { state = to_json L report pad; last_received = now } in
        let (listed, _) = write-Published now remote_id report pad e k in
        let d' = insert-Distinct remote_id entry e.gamepads d in
        rw (write-store now remote_id payload report pad e k r p) (
          (λ id.
              ap (lookup id) listed
              ∙ lookup-prune now id (insert remote_id entry e.gamepads) d'
              ∙ ground (arith, lookup-insert remote_id id entry e.gamepads)),
          subst Distinct (sym listed) (prune-Distinct now (insert remote_id entry e.gamepads) d'),
          store-IsPublished laws now remote_id report pad e k fd c,
        )

    -- Where each gamepad is listed once: when a remote with a gamepad closes, its entry goes,
    -- and so does each gamepad silent for more than half a second; the others stay as they
    -- are, and the snapshot of just these is the server's latest message. A remote without one changes nothing.
    pub on_remote_closed-sending :
        (now : ℕ) (remote_id : String) (e : GamepadEndpoint L) (k : K.State)
        → Distinct e.gamepads
        → let (k', e', stale) = on_remote_closed L K now remote_id e k in
          ((lookup remote_id e.gamepads ≡ none) × (e' ≡ e) × (k' ≡ k))
          ⊎ (((id : String)
                → lookup id e'.gamepads
                  ≡ (if remote_id == id then none else still_sending now (lookup id e.gamepads)))
              × Distinct e'.gamepads
              × Published now e')
    unfolding on_remote_closed
    on_remote_closed-sending now remote_id e k d =
        elim (Option-cases (lookup remote_id e.gamepads)) [
          | inl missing ↦
              inl (missing, rw (missing, on_remote_closed), rw (missing, on_remote_closed))
          | inr (g, found) ↦
              let e' : GamepadEndpoint L = record e {
                gamepads = prune L now (erase remote_id e.gamepads);
              } in
              let (listed, sent) = publish-Published now e' k in
              let d' = erase-Distinct remote_id e.gamepads d in
              rw (found, on_remote_closed)
                (inr (
                  (λ id.
                      ap (lookup id) listed
                      ∙ lookup-prune now id (erase remote_id e.gamepads) d'
                      ∙ ground (arith, lookup-erase remote_id id e.gamepads)),
                  subst Distinct (sym listed) (prune-Distinct now (erase remote_id e.gamepads) d'),
                  sent,
                ))
        ]
