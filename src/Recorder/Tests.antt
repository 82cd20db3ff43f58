-- ===== src/Recorder/Tests.antt =====
-- Runs of the recorder's model, and the theorems at them.
use pi_webrtc.Prelude.{
  ◌+◌, ◌≤◌, ◌≡◌, refl, true, false, some, List, [], ◌∷◌, ◌++◌, Bytes, length, replicate, leb, codes,
  bytes_ltb, arith,
}
use pi_webrtc.Recorder.Muxing
use pi_webrtc.Recorder.Events.{Event, starts, stops, frames, packets, run}
use pi_webrtc.Recorder.Protocol.{replay, mux_of, idle, run-protocol}
use pi_webrtc.Recorder.Overlap.{SparesAll, start_open-loses}
use pi_webrtc.Recorder.Naming.{Tm, FileInfo, file_info, full_path}
use pi_webrtc.Recorder.Naming.Chronology.{base_name, file_info-order}
use pi_webrtc.Recorder.Disk
use pi_webrtc.Recorder.Disk.Oldest.{DayGoesFirst, rotate_files-oldest}
use pi_webrtc.Recorder.Disk.Space.{weight}
use pi_webrtc.Recorder.Disk.Room.{after, NoneStops, throwing, make_room_ends}

abbrev camera : Muxing.Config
camera = record {
  record_type = Muxing.RecordType.both;
  file_duration = 60;
  auto_start = true;
  has_video = true;
  has_audio = false;
}

abbrev fine : Muxing.StartAnswer
fine = record { has_space = true; allocated = true; opened = true }

abbrev key_packet : Muxing.Packet
key_packet = record { is_key = true; known_stream = true; header_taken = true }

abbrev rotating : List Event
rotating =
    frames 5 fine fine
    ∷ packets key_packet
    ∷ frames 60000005 fine fine
    ∷ packets key_packet
    ∷ stops
    ∷ starts fine
    ∷ []

-- Two files, the second begun by the rotation, and a third.
calls_of_rotation :
    (run rotating (Muxing.create camera)).1
    ≡ Muxing.allocates 0
      ∷ Muxing.opens_io 0
      ∷ Muxing.adds_stream 0
      ∷ Muxing.starts_recorders
      ∷ Muxing.makes_preview
      ∷ Muxing.writes_header 0 true
      ∷ Muxing.writes_frame 0
      ∷ Muxing.stops_recorders
      ∷ Muxing.writes_trailer 0
      ∷ Muxing.closes_io 0
      ∷ Muxing.frees 0
      ∷ Muxing.allocates 1
      ∷ Muxing.opens_io 1
      ∷ Muxing.adds_stream 1
      ∷ Muxing.starts_recorders
      ∷ Muxing.makes_preview
      ∷ Muxing.writes_header 1 true
      ∷ Muxing.writes_frame 1
      ∷ Muxing.stops_recorders
      ∷ Muxing.writes_trailer 1
      ∷ Muxing.closes_io 1
      ∷ Muxing.frees 1
      ∷ Muxing.allocates 2
      ∷ Muxing.opens_io 2
      ∷ Muxing.adds_stream 2
      ∷ Muxing.starts_recorders
      ∷ Muxing.makes_preview
      ∷ []
unfolding run
calls_of_rotation = refl

run-protocol_example :
    (replay (run rotating (Muxing.create camera)).1 (some (idle 0))
      ≡ some (mux_of (run rotating (Muxing.create camera)).0))
    × (replay
          ((run rotating (Muxing.create camera)).1
            ++ (Muxing.stop (run rotating (Muxing.create camera)).0).1)
          (some (idle 0))
        ≡ some (idle (run rotating (Muxing.create camera)).0.next_ctx))
unfolding run
run-protocol_example = run-protocol camera rotating (refl, tt)

abbrev recording : Muxing.Recorder
recording = record (Muxing.create camera) { fmt_ctx = some 0; next_ctx = 1; is_recording = true }

start_open-loses_example : SparesAll 0 (
    (Muxing.start fine recording).1
    ++ (run (packets key_packet ∷ stops ∷ []) (Muxing.start fine recording).0).1)
start_open-loses_example =
    start_open-loses 0 fine (packets key_packet ∷ stops ∷ []) recording refl (omega arith) refl

abbrev evening : Tm
evening = record { year = 2024; month = 9; day = 30; hour = 21; min = 5; sec = 59 }

abbrev morning : Tm
morning = record { year = 2024; month = 10; day = 1; hour = 7; min = 0; sec = 0 }

file_info-order_example :
    (f g : FileInfo) × (file_info (codes "rec") (codes "mp4") evening ≡ some f)
    × (file_info (codes "rec") (codes "mp4") morning ≡ some g)
    × (bytes_ltb (base_name f) (base_name g) ≡ true)
    × (bytes_ltb f.date g.date ≡ true)
    × (bytes_ltb f.hour g.hour ≡ false)
file_info-order_example =
    file_info-order (codes "rec") (codes "mp4") evening morning
      (record {
        year_fits = omega arith;
        month_fits = omega arith;
        day_fits = omega arith;
        hour_fits = omega arith;
        min_fits = omega arith;
        sec_fits = omega arith;
      })
      (record {
        year_fits = omega arith;
        month_fits = omega arith;
        day_fits = omega arith;
        hour_fits = omega arith;
        min_fits = omega arith;
        sec_fits = omega arith;
      })

abbrev clip : FileInfo
clip = record {
  root = codes "/home/pi/rec";
  date = codes "20240930";
  hour = codes "21";
  filename = codes "20240930_210559";
  extension = codes "mp4";
}

path_of_clip : full_path clip ≡ codes "/home/pi/rec/20240930/21/20240930_210559.mp4"
unfolding full_path
path_of_clip = refl

abbrev mp4 : Bytes → Bytes × Bytes
mp4 stem = (stem, codes ".mp4")

-- Two days, of which the first has an hour with a recording and its image, and an hour with a recording.
abbrev stored : Disk.Root
stored =
    (
      codes "20241001",
      record { hours = (codes "07", (mp4 (codes "d"), true) ∷ []) ∷ []; loose = [] },
    )
    ∷ (
      codes "20240930",
      record {
        hours =
            (codes "21", (mp4 (codes "c"), true) ∷ [])
            ∷ (
              codes "20",
              (mp4 (codes "b"), true)
                  ∷ (mp4 (codes "a"), true)
                  ∷ ((codes "a", codes ".jpg"), true)
                  ∷ [],
            )
            ∷ [];
        loose = [];
      },
    )
    ∷ []

rotate_files-oldest_example :
    DayGoesFirst
      (codes "20240930")
      (codes "20")
      (mp4 (codes "a"))
      (codes "20240930")
      (codes "20")
      (mp4 (codes "b"))
unfolding Disk.rotate_files
rotate_files-oldest_example =
    rotate_files-oldest Disk.Removal.completes stored (codes "20240930") (codes "20240930")
      (codes "20") (codes "20") (mp4 (codes "a")) (mp4 (codes "b")) refl refl refl

-- There is space once one day is left, and the removals of the first round throw.
abbrev round : Disk.Removal → Disk.Round
round r = record { aborts = false; has_space = λ root. leb (length root) 1; removal = r }

abbrev day_of_rounds : List Disk.Round
day_of_rounds = round (Disk.Removal.throws 0) ∷ replicate 13 (round Disk.Removal.completes)

make_room_ends_example :
    (done : List Disk.Round) × (last : Disk.Round) × (rest : List Disk.Round) × (day_of_rounds
      ≡ done ++ last ∷ rest)
    × (Disk.make_room day_of_rounds stored ≡ some (after done stored))
    × (Disk.stops last (after done stored) ≡ true)
    × NoneStops done stored
    × (length done ≤ weight stored + throwing done)
make_room_ends_example =
    make_room_ends day_of_rounds stored
      (
        refl,
        (
          refl,
          (
            refl,
            (
              refl,
              (refl, (refl, (refl, (refl, (refl, (refl, (refl, (refl, (refl, (refl, tt)))))))))),
            ),
          ),
        ),
      )
      (omega arith)
