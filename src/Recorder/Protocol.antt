-- ===== src/Recorder/Protocol.antt =====
-- The order in which FFmpeg wants its calls, and that the recorder keeps to it.
use pi_webrtc.Prelude.{
  ℕ, ◌+◌, ◌≡◌, refl, ap, ◌∙◌, subst, inl, inr, Bool, true, false, not, ◌&&◌, ◌||◌, Option, none,
  some, List, [], ◌∷◌, ◌++◌, eqb, if◌then◌else◌, Option-cases, if_either, arith,
}
use pi_webrtc.Recorder.Muxing
use pi_webrtc.Recorder.Events.{Event, starts, stops, frames, packets, step, run}

-- A context on its way: allocated, its file opened, its header taken or refused, its trailer written, its
-- file closed. `idle n` is between two contexts, of which the next is number n.
pub data Mux : Type 0 where
  idle allocated opened headered refused finished closed : ℕ → Mux

abbrev pub guarded : Bool → Mux → Option Mux
guarded b m = if b then some m else none

-- What libavformat documents: a header before frames, frames and a trailer only after a header that
-- was taken, no context freed before its file is closed.
abbrev pub accept : Muxing.Call → Mux → Option Mux
accept Muxing.Call.starts_recorders m = some m
accept Muxing.Call.stops_recorders m = some m
accept Muxing.Call.makes_preview m = some m
accept (Muxing.Call.allocates n) (idle m) = guarded (eqb n m) (allocated m)
accept (Muxing.Call.opens_io n) (allocated m) = guarded (eqb n m) (opened m)
accept (Muxing.Call.frees n) (allocated m) = guarded (eqb n m) (idle (m + 1))
accept (Muxing.Call.adds_stream n) (opened m) = guarded (eqb n m) (opened m)
accept (Muxing.Call.writes_header n taken) (opened m) =
    guarded (eqb n m) (if taken then headered m else refused m)
accept (Muxing.Call.closes_io n) (opened m) = guarded (eqb n m) (closed m)
accept (Muxing.Call.writes_frame n) (headered m) = guarded (eqb n m) (headered m)
accept (Muxing.Call.writes_trailer n) (headered m) = guarded (eqb n m) (finished m)
accept (Muxing.Call.closes_io n) (finished m) = guarded (eqb n m) (closed m)
accept (Muxing.Call.closes_io n) (refused m) = guarded (eqb n m) (closed m)
accept (Muxing.Call.frees n) (closed m) = guarded (eqb n m) (idle (m + 1))
accept _ _ = none

abbrev pub then_accept : Option Mux → Muxing.Call → Option Mux
then_accept none c = none
then_accept (some m) c = accept c m

abbrev pub replay : List Muxing.Call → Option Mux → Option Mux
replay [] m = m
replay (c ∷ cs) m = replay cs (then_accept m c)

-- Where the state stands.
abbrev pub mux_at : Bool → ℕ → Option ℕ → Mux
mux_at header next none = idle next
mux_at header next (some n) = if header then headered n else opened n

abbrev pub mux_of : Muxing.Recorder → Mux
mux_of r = mux_at r.header_written r.next_ctx r.fmt_ctx

-- The context is the last that was allocated.
abbrev pub Newest : ℕ → Option ℕ → Type 0
Newest next none = Unit
Newest next (some n) = next ≡ n + 1

abbrev pub is_none : {A : Type 0} → Option A → Bool
is_none none = true
is_none (some a) = false

-- A context is open only while recording.
pub record IsConsistent (r : Muxing.Recorder) : Type 0 where
  pub open_when : (r.is_recording || is_none r.fmt_ctx) ≡ true
  pub is_newest : Newest r.next_ctx r.fmt_ctx

-- A step from a state to another keeps to the protocol.
pub record Keeps (r : Muxing.Recorder) (d : Muxing.Recorder × List Muxing.Call) : Type 0 where
  pub consistent : IsConsistent d.0
  pub replayed : replay d.1 (some (mux_of r)) ≡ some (mux_of d.0)

replay-append :
    (cs ds : List Muxing.Call) (m : Option Mux) → replay (cs ++ ds) m ≡ replay ds (replay cs m)
replay-append [] ds m = refl
replay-append (c ∷ cs) ds m = replay-append cs ds (then_accept m c)

-- One step after another.
Keeps-andthen :
    (r r' r'' : Muxing.Recorder) (cs ds : List Muxing.Call)
    → Keeps r (r', cs)
    → Keeps r' (r'', ds)
    → Keeps r (r'', cs ++ ds)
Keeps-andthen r r' r'' cs ds h k = record {
  consistent = k.consistent;
  replayed = replay-append cs ds _ ∙ ap (replay ds) h.replayed ∙ k.replayed;
}

-- The calls on recorders are no part of the protocol.
replay-streams :
    (c : Muxing.Config) (n : ℕ) → replay (Muxing.streams c n) (some (opened n)) ≡ some (opened n)
replay-streams c n = ground arith

begin_calls :
    (c : Muxing.Config) (r : Muxing.Recorder) (m : Mux)
    → replay (Muxing.begin_recording r).1 (some m) ≡ some m
unfolding Muxing.begin_recording
begin_calls c r m = ground arith

close_current_file-Keeps :
    (r : Muxing.Recorder) → IsConsistent r → Keeps r (Muxing.close_current_file r)
unfolding Muxing.close_current_file
close_current_file-Keeps r h = elim (Option-cases r.fmt_ctx) [
  | inl e ↦ record { consistent = ground arith; replayed = ground arith }
  | inr (n, e) ↦ record { consistent = ground arith; replayed = ground arith }
]

-- `Start` wants that no context is open.
start-Keeps :
    (a : Muxing.StartAnswer) (r : Muxing.Recorder)
    → r.fmt_ctx ≡ none
    → IsConsistent r
    → Keeps r (Muxing.start a r)
unfolding Muxing.start Muxing.open_container Muxing.begin_recording
start-Keeps a r e h = record { consistent = ground arith; replayed = ground arith }

write_into_file-Keeps :
    (p : Muxing.Packet) (r : Muxing.Recorder)
    → IsConsistent r
    → Keeps r (Muxing.write_into_file p r)
unfolding Muxing.write_into_file
write_into_file-Keeps p r h = elim (Option-cases r.fmt_ctx) [
  | inl e ↦ record { consistent = ground arith; replayed = ground arith }
  | inr (n, e) ↦ record { consistent = ground arith; replayed = ground arith }
]

stop-Keeps : (r : Muxing.Recorder) → IsConsistent r → Keeps r (Muxing.stop r)
unfolding Muxing.stop Muxing.close_current_file
stop-Keeps r h =
    let k = close_current_file-Keeps r h in
    record { consistent = record { open_when = refl; is_newest = tt }; replayed = k.replayed }

stays : (r : Muxing.Recorder) → IsConsistent r → Keeps r (r, [])
stays r h = record { consistent = h; replayed = refl }

set_file_number :
    (n : ℕ) (r : Muxing.Recorder) (d : Muxing.Recorder × List Muxing.Call)
    → Keeps r d
    → Keeps r (record (d.0) { file_number = n }, d.1)
set_file_number n r d k = record {
  consistent = record { open_when = k.consistent.open_when; is_newest = k.consistent.is_newest };
  replayed = k.replayed;
}

closed-ctx : (r : Muxing.Recorder) → (Muxing.close_current_file r).0.fmt_ctx ≡ none
unfolding Muxing.close_current_file
closed-ctx r = refl

rotate-Keeps :
    (now : ℕ) (a : Muxing.StartAnswer) (r : Muxing.Recorder)
    → IsConsistent r
    → Keeps r (Muxing.rotate now a r)
unfolding Muxing.rotate
rotate-Keeps now a r h =
    let k = close_current_file-Keeps r h in
    let s = start-Keeps a (Muxing.close_current_file r).0 (closed-ctx r) k.consistent in
    let both = Keeps-andthen r _ (Muxing.start a (Muxing.close_current_file r).0).0 _ _ k s in
    if_either (Keeps r) (Muxing.is_due now r) (λ _. set_file_number _ r (_, _) both)
      (λ _. stays r h)

set_base-IsConsistent :
    (now : ℕ) (r : Muxing.Recorder) → IsConsistent r → IsConsistent (Muxing.set_base now r)
set_base-IsConsistent now r h = record {
  open_when = ground (arith, h.open_when);
  is_newest = ground (arith, h.is_newest);
}

set_base-mux : (now : ℕ) (r : Muxing.Recorder) → mux_of (Muxing.set_base now r) ≡ mux_of r
set_base-mux now r = ground arith

-- The first half of a frame.
abbrev begun : Muxing.StartAnswer → Muxing.Recorder → Muxing.Recorder × List Muxing.Call
begun a r = if r.config.auto_start && not r.is_recording then Muxing.start a r else (r, [])

begun-Keeps : (a : Muxing.StartAnswer) (r : Muxing.Recorder) → IsConsistent r → Keeps r (begun a r)
begun-Keeps a r h =
    if_either (Keeps r) (r.config.auto_start && not r.is_recording)
      (λ e. start-Keeps a r (ground (arith, h.open_when)) h) (λ _. stays r h)

on_frame-Keeps :
    (now : ℕ) (a b : Muxing.StartAnswer) (r : Muxing.Recorder)
    → IsConsistent r
    → Keeps r (Muxing.on_frame now a b r)
unfolding Muxing.on_frame
on_frame-Keeps now a b r h =
    let first = begun-Keeps a r h in
    let r₁ = (begun a r).0 in
    let again =
      rotate-Keeps now b (Muxing.set_base now r₁) (set_base-IsConsistent now r₁ first.consistent) in
    let second : Keeps r₁ (Muxing.rotate now b (Muxing.set_base now r₁)) = record {
      consistent = again.consistent;
      replayed =
          subst
            (λ m.
              replay (Muxing.rotate now b (Muxing.set_base now r₁)).1 (some m)
              ≡ some (mux_of (Muxing.rotate now b (Muxing.set_base now r₁)).0))
            (set_base-mux now r₁) again.replayed;
    } in
    if_either (Keeps r) (not r₁.is_recording) (λ _. first)
      (λ _. Keeps-andthen r r₁ _ _ _ first second)

-- The explicit starts come while no context is open.
abbrev pub StartsApart : List Event → Muxing.Recorder → Type 0
StartsApart [] r = Unit
StartsApart (starts a ∷ es) r = (r.fmt_ctx ≡ none) × StartsApart es (step (starts a) r).0
StartsApart (e ∷ es) r = StartsApart es (step e r).0

run-Keeps :
    (es : List Event) (r : Muxing.Recorder) → IsConsistent r → StartsApart es r → Keeps r (run es r)
unfolding run step
run-Keeps [] r h s = stays r h
run-Keeps (starts a ∷ es) r h s =
    let k = start-Keeps a r s.0 h in Keeps-andthen r _ _ _ _ k (run-Keeps es _ k.consistent s.1)
run-Keeps (stops ∷ es) r h s =
    let k = stop-Keeps r h in Keeps-andthen r _ _ _ _ k (run-Keeps es _ k.consistent s)
run-Keeps (frames now a b ∷ es) r h s =
    let k = on_frame-Keeps now a b r h in Keeps-andthen r _ _ _ _ k (run-Keeps es _ k.consistent s)
run-Keeps (packets p ∷ es) r h s =
    let k = write_into_file-Keeps p r h in Keeps-andthen r _ _ _ _ k (run-Keeps es _ k.consistent s)

-- A new recorder, whatever frames and packets come and whatever FFmpeg answers, as long as the explicit
-- starts come while no context is open: FFmpeg is called in the order that it documents, what is
-- open is what the state says, and a `Stop` at the end leaves every context that was allocated freed.
pub run-protocol :
    (config : Muxing.Config) (es : List Event)
    → StartsApart es (Muxing.create config)
    → let (r, calls) = run es (Muxing.create config) in
      (replay calls (some (idle 0)) ≡ some (mux_of r))
      × (replay (calls ++ (Muxing.stop r).1) (some (idle 0)) ≡ some (idle r.next_ctx))
unfolding Muxing.stop Muxing.close_current_file
run-protocol config es s =
    let first =
      run-Keeps es (Muxing.create config) (record { open_when = refl; is_newest = tt }) s in
    let last = stop-Keeps (run es (Muxing.create config)).0 first.consistent in
    (first.replayed, (Keeps-andthen _ _ _ _ _ first last).replayed)
