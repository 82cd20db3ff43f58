-- ===== src/Channel/Outbound/Transport.antt =====
-- A packet from the sender's queue to the receiver's `OnPacket`.
use pi_webrtc.Prelude.{
  ◌≡◌, ◌≢◌, refl, ◌⊎◌, inl, inr, String, Bytes, some, [], ◌∷◌, ◌++◌, Option-cases,
}
use pi_webrtc.Channel.Packet.{Packet}
use pi_webrtc.Channel.Framing.{
  Codec, CodecLaws, ChannelFraming, plain, live_kit, DataPacket, encode, decode,
}
use pi_webrtc.Channel.Outbound.{RtcChannel, send, send_bytes, on_message}

-- The framings of the two ends of a channel: the same kind, by which the receiver names the sender.
pub data Ends : ChannelFraming → ChannelFraming → String → Type 0 where
  plain_ends : (local remote : String) → Ends (plain local) (plain remote) remote
  live_kit_ends : (local remote : String) → Ends (live_kit local) (live_kit remote) ""

module _ (k : Codec) (laws : CodecLaws k) where
  -- Framed bytes that are not dropped come out of the other end as they went in.
  decode-encode :
      {f g : ChannelFraming} {id : String} (payload : Bytes)
      → Ends f g id
      → encode k f payload ≢ []
      → decode k g (encode k f payload) ≡ some (payload, id)
  unfolding encode decode
  decode-encode payload (plain_ends local remote) ne = refl
  decode-encode payload (live_kit_ends local remote) ne =
      let p : DataPacket = record {
        user = some (record { payload = payload; topic = local });
        participant_identity = "";
      } in
      elim (Option-cases (k.write_data_packet p)) [
        | inl e ↦ absurd (ne (rw e))
        | inr (s, e) ↦ rw e (rw (laws.read_data_packet-write p s e, decode))
      ]

  on_message-encode :
      {id : String} (payload : Bytes) (p : Packet) (f : ChannelFraming) (d : RtcChannel)
      → Ends f d.framing id
      → encode k f payload ≢ []
      → k.read_packet payload ≡ some p
      → on_message k (encode k f payload) d ≡ some (p, id)
  unfolding on_message
  on_message-encode {id} payload p f d ends ne e =
      rw (decode-encode payload ends ne, on_message) (rw e)

  -- On a codec that keeps its laws, a packet that serializes is either dropped, because the
  -- framing yields no bytes for it, and then the sender is unchanged, or it is queued behind
  -- the other messages as one message that any channel with the other end's framing reads as
  -- the same packet, from the sender that framing names.
  pub on_message-send :
      (id : String) (p : Packet) (s : Bytes) (c d : RtcChannel)
      → Ends c.framing d.framing id
      → k.write_packet p ≡ some s
      → ((encode k c.framing s ≡ []) × (send k p c ≡ c))
        ⊎ ((m : Bytes) × (send k p c ≡ record c { send_queue = c.send_queue ++ m ∷ [] })
            × (on_message k m d ≡ some (p, id)))
  unfolding send send_bytes
  on_message-send id p s c d ends e = rw (e, send) (go (encode k c.framing s) refl)
    where
      go :
          (framed : Bytes)
          → encode k c.framing s ≡ framed
          → ((encode k c.framing s ≡ []) × (send_bytes k s c ≡ c))
            ⊎ ((m : Bytes) × (send_bytes k s c ≡ record c { send_queue = c.send_queue ++ m ∷ [] })
                × (on_message k m d ≡ some (p, id)))
      go [] z = inl (z, rw (z, send_bytes))
      go (b ∷ bs) z = inr (
        b ∷ bs,
        rw (z, send_bytes),
        rw z at (on_message-encode s p c.framing d ends (λ x. cc) (laws.read_packet-write p s e)),
      )
