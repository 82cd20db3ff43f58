-- ===== src/Recorder/Overlap.antt =====
-- A `Start` while a container is open, as src/rtc/conductor.cpp makes it at a second start command.
use pi_webrtc.Prelude.{
  ℕ, ◌<◌, ◌≡◌, inl, inr, Bool, false, ◌&&◌, not, Option, none, some, List, [], ◌∷◌, ◌++◌, eqb,
  if◌then◌else◌, Option-cases, if_either, All, All-append, arith,
}
use pi_webrtc.Recorder.Muxing.{
  Recorder, StartAnswer, Packet, Call, allocates, opens_io, adds_stream, writes_header,
  writes_frame, writes_trailer, closes_io, frees, start, stop, on_frame, rotate, write_into_file,
  begin_recording, open_container, close_current_file, is_due, set_base, is_snapshot,
}
use pi_webrtc.Recorder.Events.{Event, starts, stops, frames, packets, step, run}

-- The call is about a context.
abbrev pub mentions : ℕ → Call → Bool
mentions n (allocates m) = eqb n m
mentions n (opens_io m) = eqb n m
mentions n (adds_stream m) = eqb n m
mentions n (writes_header m taken) = eqb n m
mentions n (writes_frame m) = eqb n m
mentions n (writes_trailer m) = eqb n m
mentions n (closes_io m) = eqb n m
mentions n (frees m) = eqb n m
mentions n _ = false

abbrev pub SparesAll : ℕ → List Call → Type 0
SparesAll n calls = All (λ c. mentions n c ≡ false) calls

abbrev pub Differs : ℕ → Option ℕ → Type 0
Differs n none = Unit
Differs n (some m) = eqb n m ≡ false

-- The recorder no longer knows of a context that it allocated.
pub record IsLost (n : ℕ) (r : Recorder) : Type 0 where
  pub older : n < r.next_ctx
  pub gone : Differs n r.fmt_ctx

pub record Spares (n : ℕ) (d : Recorder × List Call) : Type 0 where
  pub lost : IsLost n d.0
  pub spared : SparesAll n d.1

start-Spares :
    (n : ℕ) (a : StartAnswer) (r : Recorder)
    → n < r.next_ctx
    → is_snapshot r.config.record_type ≡ false
    → Spares n (start a r)
unfolding start open_container begin_recording
start-Spares n a r h e = record {
  lost = record { older = ground arith; gone = ground arith };
  spared = ground arith;
}

start-Lost : (n : ℕ) (a : StartAnswer) (r : Recorder) → IsLost n r → Spares n (start a r)
unfolding start open_container begin_recording
start-Lost n a r h = record {
  lost = record { older = ground arith; gone = ground arith };
  spared = ground arith;
}

close-Lost : (n : ℕ) (r : Recorder) → IsLost n r → Spares n (close_current_file r)
unfolding close_current_file
close-Lost n r h = elim (Option-cases r.fmt_ctx) [
  | inl e ↦ record { lost = record { older = ground arith; gone = tt }; spared = ground arith }
  | inr (m, e) ↦ record { lost = record { older = ground arith; gone = tt }; spared = ground arith }
]

write-Lost : (n : ℕ) (p : Packet) (r : Recorder) → IsLost n r → Spares n (write_into_file p r)
unfolding write_into_file
write-Lost n p r h = elim (Option-cases r.fmt_ctx) [
  | inl e ↦ record {
    lost = record { older = ground arith; gone = ground arith };
    spared = ground arith;
  }
  | inr (m, e) ↦ record {
    lost = record { older = ground arith; gone = ground arith };
    spared = ground arith;
  }
]

Spares-andthen :
    (n : ℕ) (r r' : Recorder) (cs ds : List Call)
    → Spares n (r, cs)
    → Spares n (r', ds)
    → Spares n (r', cs ++ ds)
Spares-andthen n r r' cs ds h k = record {
  lost = k.lost;
  spared = All-append _ cs ds h.spared k.spared;
}

Spares-nothing : (n : ℕ) (r : Recorder) → IsLost n r → Spares n (r, [])
Spares-nothing n r h = record { lost = h; spared = tt }

renumbered :
    (n k : ℕ) (d : Recorder × List Call)
    → Spares n d
    → Spares n (record (d.0) { file_number = k }, d.1)
renumbered n k d h = record {
  lost = record { older = h.lost.older; gone = h.lost.gone };
  spared = h.spared;
}

rotate-Lost : (n now : ℕ) (a : StartAnswer) (r : Recorder) → IsLost n r → Spares n (rotate now a r)
unfolding rotate
rotate-Lost n now a r h =
    let c = close-Lost n r h in
    let s = start-Lost n a (close_current_file r).0 c.lost in
    if_either (Spares n) (is_due now r)
      (λ _. renumbered n _ (_, _) (Spares-andthen n (close_current_file r).0 _ _ _ c s))
      (λ _. Spares-nothing n r h)

set_base-Lost : (n now : ℕ) (r : Recorder) → IsLost n r → IsLost n (set_base now r)
set_base-Lost n now r h = record { older = ground (arith, h.older); gone = ground (arith, h.gone) }

on_frame-Lost :
    (n now : ℕ) (a b : StartAnswer) (r : Recorder) → IsLost n r → Spares n (on_frame now a b r)
unfolding on_frame
on_frame-Lost n now a b r h =
    let d : Recorder × List Call =
      if r.config.auto_start && not r.is_recording then start a r else (r, []) in
    let first : Spares n d =
      if_either (Spares n) (r.config.auto_start && not r.is_recording) (λ _. start-Lost n a r h)
        (λ _. Spares-nothing n r h) in
    let second = rotate-Lost n now b (set_base now d.0) (set_base-Lost n now d.0 first.lost) in
    if_either (Spares n) (not d.0.is_recording) (λ _. first)
      (λ _. Spares-andthen n d.0 _ _ _ first second)

stop-Lost : (n : ℕ) (r : Recorder) → IsLost n r → Spares n (stop r)
unfolding stop
stop-Lost n r h = renumbered n 0 (close_current_file r) (close-Lost n r h)

step-Lost : (n : ℕ) (e : Event) (r : Recorder) → IsLost n r → Spares n (step e r)
unfolding step
step-Lost n (starts a) r h = start-Lost n a r h
step-Lost n stops r h = stop-Lost n r h
step-Lost n (frames now a b) r h = on_frame-Lost n now a b r h
step-Lost n (packets p) r h = write-Lost n p r h

run-Lost : (n : ℕ) (es : List Event) (r : Recorder) → IsLost n r → Spares n (run es r)
unfolding run
run-Lost n [] r h = Spares-nothing n r h
run-Lost n (e ∷ es) r h =
    let k = step-Lost n e r h in
    Spares-andthen n (step e r).0 _ _ _ k (run-Lost n es (step e r).0 k.lost)

-- A `Start` of a recorder of video that has a context open, whatever FFmpeg answers: from then on no call is
-- about that context, so its trailer is not written, its file not closed and it is never freed.
pub start_open-loses :
    (n : ℕ) (a : StartAnswer) (es : List Event) (r : Recorder)
    → r.fmt_ctx ≡ some n
    → n < r.next_ctx
    → is_snapshot r.config.record_type ≡ false
    → SparesAll n ((start a r).1 ++ (run es (start a r).0).1)
start_open-loses n a es r e older video =
    let k = start-Spares n a r older video in
    (Spares-andthen n (start a r).0 _ _ _ k (run-Lost n es (start a r).0 k.lost)).spared
