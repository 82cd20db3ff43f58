-- ===== src/Registry/Dispatch.antt =====
-- What `Write` and `OnRemoteClosed` of the registry reach.
use pi_webrtc.Prelude.{
  ℕ, ◌≡◌, ◌≢◌, All, map, refl, ap, ◌∙◌, ◌⊎◌, inl, inr, String, Bytes, true, false, none, some, [],
  ◌∷◌, Option-cases, ==_iff, ==_refl, string_eq, arith,
}
use pi_webrtc.Prelude.Dict.{lookup, Distinct, lookup-insert}
use pi_webrtc.Socket.{Kernel}
use pi_webrtc.Gamepad.{Libraries, GamepadEndpoint}
use pi_webrtc.Gamepad.Sending.{on_remote_closed-sending}
use pi_webrtc.Registry.{
  Endpoint, ipc_endpoint, gamepad_endpoint, Registry, endpoint_write, endpoint_closed, write,
  close_all, on_remote_closed,
}

module _ (L : Libraries) (K : Kernel) (now : ℕ) where
  -- `Write` reports an endpoint of the name exactly if there is one; that endpoint alone is written
  -- to, and without one nothing changes.
  pub write-lookup :
      (n remote_id : String) (payload : Bytes) (r : Registry L) (k : K.State)
      → let result = write L K now n remote_id payload (r, k) in
        let r' = (result.0).0 in
        let k' = (result.0).1 in
        let found = result.1 in
        ((found ≡ false) × (lookup n r ≡ none) × (r' ≡ r) × (k' ≡ k))
        ⊎ ((e : Endpoint L) × (found ≡ true)
            × (lookup n r ≡ some e)
            × (lookup n r' ≡ some (endpoint_write L K now remote_id payload e k).1)
            × (k' ≡ (endpoint_write L K now remote_id payload e k).0)
            × ((m : String) → m ≢ n → lookup m r' ≡ lookup m r))
  unfolding write
  write-lookup n remote_id payload r k = elim (Option-cases (lookup n r)) [
    | inl missing ↦ inl (rw (missing, write), missing, rw (missing, write), rw (missing, write))
    | inr (e, found) ↦
        let e' : Endpoint L = (endpoint_write L K now remote_id payload e k).1 in
        inr (
          e,
          rw (found, write),
          found,
          rw (found, write) (lookup-insert n n e' r ∙ rw (==_refl n)),
          rw (found, write),
          λ m ne. rw (found, write) (ground (arith, lookup-insert n m e' r, ==_iff n m)),
        )
  ]

  -- Each gamepad endpoint lists a gamepad once.
  abbrev pub HasDistinctPads : Endpoint L → Type 0
  HasDistinctPads (ipc_endpoint s) = Unit
  HasDistinctPads (gamepad_endpoint e) = Distinct e.gamepads

  abbrev pub HasForgotten : String → Endpoint L → Type 0
  HasForgotten remote_id (ipc_endpoint s) = Unit
  HasForgotten remote_id (gamepad_endpoint e) = lookup remote_id e.gamepads ≡ none

  closed-HasForgotten :
      (remote_id : String) (e : Endpoint L) (k : K.State)
      → HasDistinctPads e
      → HasForgotten remote_id (endpoint_closed L K now remote_id e k).1
  unfolding endpoint_closed
  closed-HasForgotten remote_id (ipc_endpoint s) k d = tt
  closed-HasForgotten remote_id (gamepad_endpoint e) k d =
      elim (on_remote_closed-sending L K now remote_id e k d) [
        | inl (missing, same, _) ↦
            ap (λ (x : GamepadEndpoint L). lookup remote_id x.gamepads) same ∙ missing
        | inr (listed, _, _) ↦ listed remote_id ∙ rw (==_refl remote_id)
      ]

  -- When a remote closes, every gamepad endpoint of the registry forgets its gamepad, provided that
  -- each lists a gamepad once, and the registry keeps its names in their order.
  pub on_remote_closed-HasForgotten :
      (remote_id : String) (r : Registry L) (k : K.State)
      → All (λ entry. HasDistinctPads entry.1) r
      → let r' = (on_remote_closed L K now remote_id (r, k)).0 in
        All (λ entry. HasForgotten remote_id entry.1) r'
        × (map (λ entry. entry.0) r' ≡ map (λ entry. entry.0) r)
  unfolding on_remote_closed
  on_remote_closed-HasForgotten remote_id r k d = go r k d
    where
      go :
          (r : Registry L) (k : K.State)
          → All (λ entry. HasDistinctPads entry.1) r
          → let r' = (close_all L K now remote_id r k).0 in
            All (λ entry. HasForgotten remote_id entry.1) r'
            × (map (λ entry. entry.0) r' ≡ map (λ entry. entry.0) r)
      go [] k d = (tt, refl)
      go ((n, e) ∷ r) k d =
          let later = go r (endpoint_closed L K now remote_id e k).0 d.1 in
          ((closed-HasForgotten remote_id e k d.0, later.0), ap (◌∷◌ n) later.1)
