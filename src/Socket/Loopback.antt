-- ===== src/Socket/Loopback.antt =====
-- Sockets that take two bytes at a time, of which the ninth always fails, and that leave all unread.
use pi_webrtc.Prelude.{
  ℕ, ◌≤◌, ◌≡◌, Bytes, Bool, some, [], ◌∷◌, ◌++◌, length, take, eqb, if◌then◌else◌, arith,
}
use pi_webrtc.Socket.{Kernel, KernelLaws, Sent, wrote, failed}

abbrev pub Streams : Type 0
Streams = ℕ → Bytes

abbrev pub send_two : ℕ → Bytes → Bool → Streams → Streams × Sent
send_two fd bytes dont_wait k =
    if eqb fd 9
    then (k, failed)
    else ((λ g. if eqb g fd then k g ++ take 2 bytes else k g), wrote (length (take 2 bytes)))

abbrev pub kernel : Kernel
kernel = record {
  State = Streams;
  send = send_two;
  unread = λ fd k. some (length (k fd));
  delivered = λ fd k. k fd;
  interrupts = λ k. 0;
}

two_wrote :
    (fd n : ℕ) (bytes : Bytes) (dont_wait : Bool) (k : Streams)
    → (send_two fd bytes dont_wait k).1 ≡ wrote n
    → (n ≤ length bytes) × ((send_two fd bytes dont_wait k).0 fd ≡ k fd ++ take n bytes)
two_wrote fd n [] d k h = ground arith
two_wrote fd n (a ∷ []) d k h = ground arith
two_wrote fd n (a ∷ b ∷ bytes) d k h = ground arith

pub laws : KernelLaws kernel
laws = record {
  send_wrote = two_wrote;
  send_nothing = λ fd bytes d k h. ground (arith, h (length (take 2 bytes)));
  send_others = λ fd g bytes d k ne. ground arith;
  send_interrupts = λ fd bytes d k. (omega arith, λ e. ground arith);
}
