-- ===== src/WebSocket/Order.antt =====
-- The order of the frames that src/signaling/websocket_client.cpp sends.
use pi_webrtc.Prelude.{
  ℕ, ◌≡◌, refl, ap, sym, Bool, true, false, not, ◌&&◌, ◌||◌, List, [], ◌∷◌, ◌++◌, append_assoc,
  append-nil, Bytes, is_empty, if◌then◌else◌, if_either, ◌∙◌, arith,
}
use pi_webrtc.WebSocket.Client
use pi_webrtc.WebSocket.Runs
use pi_webrtc.WebSocket.Order.Sent.{
  written, queued, written-append, queued-append, written-quiet, queued-quiet,
}
pub mod Sent

-- The frames in the queue that no write has begun for.
abbrev pub pending : Client.Client → List Client.Frame
pending c = if c.writing then Client.rest_of c.write_queue else c.write_queue

-- While a write runs, its frame is in the queue.
abbrev pub IsHeld : Client.Client → Type 0
IsHeld c = (c.writing && is_empty c.write_queue) ≡ false

-- Nothing is lost, doubled or moved, unless the client has finished.
pub record Keeps (c : Client.Client) (d : Client.Did) : Type 0 where
  pub live : d.0.finished ≡ false → c.finished ≡ false
  pub kept : d.0.finished ≡ false → written d.1 ++ pending d.0 ≡ pending c ++ queued d.1
  pub held : IsHeld d.0

rest_of-append :
    (fs : List Client.Frame) (f : Client.Frame)
    → is_empty fs ≡ false
    → Client.rest_of (fs ++ f ∷ []) ≡ Client.rest_of fs ++ f ∷ []
rest_of-append [] f h = ground (arith, h)
rest_of-append (g ∷ fs) f h = refl

-- What one piece leaves, the next begins with.
chain :
    {A : Type 0}
    → (w0 w1 p0 p1 p2 q0 q1 : List A) → w0 ++ p1 ≡ p0 ++ q0
    → w1 ++ p2 ≡ p1 ++ q1
    → w0 ++ w1 ++ p2 ≡ p0 ++ (q0 ++ q1)
chain w0 w1 p0 p1 p2 q0 q1 h k =
    rw (append_assoc w0 w1 p2, k, sym (append_assoc w0 p1 q1), h, append_assoc p0 q0 q1) refl

pending-push :
    (fs : List Client.Frame) (f : Client.Frame) (b : Bool)
    → (b && is_empty fs) ≡ false
    → (if b then Client.rest_of (fs ++ f ∷ []) else fs ++ f ∷ [])
      ≡ (if b then Client.rest_of fs else fs) ++ f ∷ []
pending-push fs f true h = rest_of-append fs f h
pending-push fs f false h = refl

held-push :
    (fs : List Client.Frame) (f : Client.Frame) (b : Bool) → (b && is_empty (fs ++ f ∷ [])) ≡ false
held-push [] f true = refl
held-push (g ∷ fs) f true = refl
held-push fs f false = refl

Keeps-andthen :
    (c : Client.Client) (d : Client.Did) (f : Client.Client → Client.Did)
    → Keeps c d
    → (IsHeld d.0 → Keeps d.0 (f d.0))
    → Keeps c (Client.◌andthen◌ d f)
Keeps-andthen c d f h k =
    let k' = k h.held in
    record {
      live = λ l. h.live (k'.live l);
      kept = λ l.
          rw (written-append d.1 (f d.0).1, queued-append d.1 (f d.0).1)
            (chain (written d.1) (written (f d.0).1) (pending c) (pending d.0) (pending (f d.0).0)
              (queued d.1) (queued (f d.0).1) (h.kept (k'.live l)) (k'.kept l));
      held = k'.held;
    }

-- A piece after which the client has finished.
ends : (c : Client.Client) (d : Client.Did) → d.0.finished ≡ true → IsHeld d.0 → Keeps c d
ends c d e h = record {
  live = λ l. ground (arith, e, l);
  kept = λ l. ground (arith, e, l);
  held = h;
}

first_only-held :
    (fs : List Client.Frame) (b : Bool)
    → (b && is_empty fs) ≡ false
    → (b && is_empty (if b then Client.first_only fs else [])) ≡ false
first_only-held [] true h = h
first_only-held (f ∷ fs) true h = refl
first_only-held fs false h = refl

finish-finished :
    (code : ℕ) (reason : Bytes) (c : Client.Client)
    → (Client.finish code reason c).0.finished ≡ true
unfolding Client.finish
finish-finished code reason c = ground arith

finish-held :
    (code : ℕ) (reason : Bytes) (c : Client.Client)
    → IsHeld c
    → IsHeld (Client.finish code reason c).0
unfolding Client.finish
finish-held code reason c h =
    if_either (λ (d : Client.Did). IsHeld d.0) c.finished (λ _. h)
      (λ _. first_only-held c.write_queue c.writing h)

finish-Keeps :
    (code : ℕ) (reason : Bytes) (c : Client.Client)
    → IsHeld c
    → Keeps c (Client.finish code reason c)
finish-Keeps code reason c h =
    ends c (Client.finish code reason c) (finish-finished code reason c)
      (finish-held code reason c h)

quiet :
    (c c' : Client.Client) (as' : List Client.Action)
    → Runs.AreQuiet as'
    → Runs.IsSame c c'
    → IsHeld c
    → Keeps c (c', as')
quiet c c' as' q s h = record {
  live = λ l. sym s.finished ∙ l;
  kept = λ l.
      rw (written-quiet as' q, queued-quiet as' q, append-nil (pending c), s.queue, s.writing) refl;
  held = rw (s.queue, s.writing) h;
}

write_front-Keeps :
    (fs : List Client.Frame) (c : Client.Client)
    → c.write_queue ≡ fs
    → c.writing ≡ false
    → Keeps c (Client.write_front fs c)
write_front-Keeps [] c e w =
    let h : IsHeld c = rw w refl in
    if_either (Keeps c) c.closing (λ _. quiet c c _ tt (Runs.same c) h)
      (λ _. quiet c c [] tt (Runs.same c) h)
write_front-Keeps (f ∷ fs) c e w = record {
  live = λ l. l;
  kept = λ l. rw (w, e) (sym (append-nil _));
  held = rw e refl;
}

do_write-Keeps : (c : Client.Client) → IsHeld c → Keeps c (Client.do_write c)
unfolding Client.do_write
do_write-Keeps c h =
    if_either (Keeps c) (c.writing || c.finished || not c.open_)
      (λ _. quiet c c [] tt (Runs.same c) h)
      (λ free. write_front-Keeps c.write_queue c refl (ground (arith, free)))

run-Keeps :
    (es : List Client.Event) (c : Client.Client)
    → Runs.AllFit (λ c'. c'.writing ≡ true) es c
    → IsHeld c
    → Keeps c (Client.run es c)
run-Keeps =
    Runs.run-P IsHeld Keeps (λ c. c.writing ≡ true) Keeps-andthen finish-Keeps do_write-Keeps
      (λ f c live h. record {
        live = λ l. l;
        kept = λ l. pending-push c.write_queue f c.writing h;
        held = held-push c.write_queue f c.writing;
      })
      (λ c done h. ends c _ done refl)
      (λ c live w h. record { live = λ l. l; kept = λ l. rw w (sym (append-nil _)); held = refl })
      (λ why c live h.
        let c' : Client.Client = record c { writing = false } in
        ends c (Client.finish 0 why c') (finish-finished 0 why c') (finish-held 0 why c' refl))
      (λ c c' as' q s h. quiet c c' as' q s h)

-- A client with an empty queue and no write under way, whose writes end only when one is under way, whatever its
-- callbacks do: unless it has finished, the frames whose write Boost was asked for, then those that wait, are the
-- frames it queued, in that order.
pub run-in_order :
    (es : List Client.Event) (c : Client.Client)
    → c.write_queue ≡ []
    → c.writing ≡ false
    → Runs.AllFit (λ c'. c'.writing ≡ true) es c
    → (Client.run es c).0.finished ≡ false
    → let (c', as') = Client.run es c in written as' ++ pending c' ≡ queued as'
run-in_order es c e w fits live = (run-Keeps es c fits (rw w refl)).kept live ∙ rw (w, e) refl
