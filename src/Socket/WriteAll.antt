-- ===== src/Socket/WriteAll.antt =====
-- `WriteAll`: it ends, and it writes a front part of the message, the whole of it if it says so.
use pi_webrtc.Prelude.{
  ℕ, zero, suc, ◌+◌, ◌-◌, ◌≤◌, ◌<◌, ◌≡◌, ◌≢◌, refl, sym, ap, ◌∙◌, inl, inr, Bytes, Bool, true,
  false, Option, some, ◌++◌, length, take, drop, ltb, append_assoc, append-nil, length-drop,
  drop-drop, take-append, Bool-cases, arith,
}
use pi_webrtc.Socket.{
  Kernel, KernelLaws, Sent, wrote, interrupted, would_block, failed, after_send, write_all,
  continued,
}

module _ (K : Kernel) (laws : KernelLaws K) where
  -- The socket `fd` was sent `n` bytes of the message from `sent` on, all that were left if the
  -- result is true, and the other sockets nothing.
  pub record Wrote (fd sent : ℕ) (message : Bytes) (k k' : K.State) (result : Bool) : Type 0 where
    pub n : ℕ
    pub bounded : n ≤ length message - sent
    pub delivered : K.delivered fd k' ≡ K.delivered fd k ++ take n (drop sent message)
    pub whole : result ≡ true → n ≡ length message - sent
    pub others : (g : ℕ) → g ≢ fd → K.delivered g k' ≡ K.delivered g k

  module _ (fd : ℕ) (message : Bytes) where
    nothing :
        (sent : ℕ) (k k' : K.State)
        → K.delivered fd k' ≡ K.delivered fd k
        → ((g : ℕ) → g ≢ fd → K.delivered g k' ≡ K.delivered g k)
        → Wrote fd sent message k k' false
    nothing sent k k' e others = record {
      n = 0;
      bounded = omega arith;
      delivered = e ∙ sym (append-nil (K.delivered fd k));
      whole = λ h. cc;
      others = others;
    }

    -- A send of some bytes, and then the rest of the loop.
    then_wrote :
        (sent m : ℕ) (k k' k'' : K.State) (result : Bool)
        → m ≤ length message - sent
        → K.delivered fd k' ≡ K.delivered fd k ++ take m (drop sent message)
        → ((g : ℕ) → g ≢ fd → K.delivered g k' ≡ K.delivered g k)
        → Wrote fd (sent + m) message k' k'' result
        → Wrote fd sent message k k'' result
    then_wrote sent m k k' k'' result h e others w = record {
      n = m + w.n;
      bounded = omega (arith, w.bounded);
      delivered =
          w.delivered
          ∙ ap (λ (s : Bytes). s ++ take w.n (drop (sent + m) message)) e
          ∙ append_assoc (K.delivered fd k) (take m (drop sent message))
              (take w.n (drop (sent + m) message))
          ∙ ap (◌++◌ (K.delivered fd k)) (
              ap (λ (s : Bytes). take m (drop sent message) ++ take w.n s)
                (sym (drop-drop sent m message))
              ∙ take-append m w.n (drop sent message));
      whole = λ r. omega (arith, w.whole r);
      others = λ g ne. w.others g ne ∙ others g ne;
    }

    abbrev Goes : Option (K.State × Bool) → ℕ → K.State → Type 0
    Goes outcome sent k =
        (k' : K.State) × (result : Bool) × (outcome ≡ some (k', result))
        × Wrote fd sent message k k' result

    wrote_round :
        (n sent fuel : ℕ) (k : K.State)
        → sent ≤ length message
        → (length message - sent) + K.interrupts k < suc fuel
        → ((n : ℕ) (k' : K.State)
            → n ≤ length message
            → (length message - n) + K.interrupts k' < fuel
            → Goes (write_all K fuel fd message n k') n k')
        → (K.send fd (drop sent message) false k).1 ≡ wrote n
        → let k' = (K.send fd (drop sent message) false k).0 in
          Goes
            (continued K (λ n. write_all K fuel fd message n k') k' (after_send sent (wrote n)))
            sent
            k
    wrote_round n sent fuel k h f ih e =
        let k' = (K.send fd (drop sent message) false k).0 in
        let (fits, delivered) = laws.send_wrote fd n (drop sent message) false k e in
        let others =
          λ (g : ℕ) (ne : g ≢ fd). laws.send_others fd g (drop sent message) false k ne in
        let left = length-drop sent message in
        elim (Bool-cases (ltb 0 n)) [
          | inl some' ↦
              let (k'', result, run, w) =
                ih (sent + n) k' (omega arith)
                  (ground (arith, laws.send_interrupts fd (drop sent message) false k)) in
              (
                k'',
                result,
                rw some' run,
                then_wrote sent n k k' k'' result (omega arith) delivered others w,
              )
          | inr zero' ↦
              let none' : n ≡ 0 = ground arith in
              (
                k',
                false,
                rw zero' refl,
                nothing sent k k'
                    (delivered
                      ∙ ap (λ m. K.delivered fd k ++ take m (drop sent message)) none'
                      ∙ append-nil (K.delivered fd k))
                    others,
              )
        ]

    stopped :
        (sent : ℕ) (k : K.State) (r : Sent)
        → (K.send fd (drop sent message) false k).1 ≡ r
        → ((n : ℕ) → r ≢ wrote n)
        → Wrote fd sent message k (K.send fd (drop sent message) false k).0 false
    stopped sent k r e ne =
        nothing sent k (K.send fd (drop sent message) false k).0
          (laws.send_nothing fd (drop sent message) false k (λ n x. ne n (sym e ∙ x)))
          (λ g x. laws.send_others fd g (drop sent message) false k x)

    round :
        (r : Sent) (sent fuel : ℕ) (k : K.State)
        → sent ≤ length message
        → (length message - sent) + K.interrupts k < suc fuel
        → ((n : ℕ) (k' : K.State)
            → n ≤ length message
            → (length message - n) + K.interrupts k' < fuel
            → Goes (write_all K fuel fd message n k') n k')
        → (K.send fd (drop sent message) false k).1 ≡ r
        → let k' = (K.send fd (drop sent message) false k).0 in
          Goes (continued K (λ n. write_all K fuel fd message n k') k' (after_send sent r)) sent k
    round (wrote n) sent fuel k h f ih e = wrote_round n sent fuel k h f ih e
    round interrupted sent fuel k h f ih e =
        let k' = (K.send fd (drop sent message) false k).0 in
        let fewer = (laws.send_interrupts fd (drop sent message) false k).1 e in
        let (k'', result, run, w) = ih sent k' h (omega arith) in
        let none' = laws.send_nothing fd (drop sent message) false k (λ n x. cc (sym e ∙ x)) in
        (
          k'',
          result,
          run,
          record {
            n = w.n;
            bounded = w.bounded;
            delivered = w.delivered ∙ ap (λ (s : Bytes). s ++ take w.n (drop sent message)) none';
            whole = w.whole;
            others = λ g x. w.others g x ∙ laws.send_others fd g (drop sent message) false k x;
          },
        )
    round would_block sent fuel k h f ih e =
        (_, false, refl, stopped sent k would_block e (λ n x. cc))
    round failed sent fuel k h f ih e = (_, false, refl, stopped sent k failed e (λ n x. cc))

    -- On a kernel that keeps its laws, `WriteAll` returns from any point of the message, on
    -- more fuel than there are bytes left and interrupts to come; the socket has then been
    -- sent a front part of what was left, all of it if the result is true, and no other socket
    -- anything.
    pub write_all_total :
        (fuel sent : ℕ) (k : K.State)
        → sent ≤ length message
        → (length message - sent) + K.interrupts k < fuel
        → (k' : K.State) × (result : Bool) × (write_all K fuel fd message sent k
            ≡ some (k', result))
          × Wrote fd sent message k k' result
    unfolding write_all
    write_all_total zero sent k h f = absurd (omega arith)
    write_all_total (suc fuel) sent k h f = elim (Bool-cases (ltb sent (length message))) [
      | inl more ↦ rw more (
          round (K.send fd (drop sent message) false k).1 sent fuel k h f
            (λ n k' h' f'. write_all_total fuel n k' h' f') refl)
      | inr all ↦ (
        k,
        true,
        rw all refl,
        record {
          n = 0;
          bounded = omega arith;
          delivered = sym (append-nil (K.delivered fd k));
          whole = λ _. ground arith;
          others = λ g x. refl;
        },
      )
    ]
