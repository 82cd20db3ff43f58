-- ===== src/Recorder/Events.antt =====
-- What happens to a recorder of src/recorder/recorder_manager.cpp, and runs of such events.
use pi_webrtc.Prelude.{ℕ, List, [], ◌∷◌, ◌++◌}
use pi_webrtc.Recorder.Muxing.{
  Recorder, StartAnswer, Packet, Call, start, stop, write_into_file, on_frame,
}

-- `Start` and `Stop` by the conductor or the destructor, a frame of the camera with the answers to the two
-- calls of `Start` that it may make, and a packet of an encoder.
pub data Event : Type 0 where
  starts : StartAnswer → Event
  stops : Event
  frames : ℕ → StartAnswer → StartAnswer → Event
  packets : Packet → Event

unfoldable pub step : Event → Recorder → Recorder × List Call
unfolding start stop on_frame write_into_file
step (starts a) r = start a r
step stops r = stop r
step (frames now a b) r = on_frame now a b r
step (packets p) r = write_into_file p r

unfoldable pub run : List Event → Recorder → Recorder × List Call
unfolding step
run [] r = (r, [])
run (e ∷ es) r =
    let (r', calls) = step e r in let (r'', calls') = run es r' in (r'', calls ++ calls')
