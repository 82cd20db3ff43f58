-- ===== src/Recorder/Muxing.antt =====
-- `RecorderManager` of src/recorder/recorder_manager.cpp. FFmpeg's calls are the results of a step, on
-- contexts that are numbered as they are allocated; what FFmpeg answers is an argument. The methods
-- of the control thread and `WriteIntoFile` are one step each: a packet that comes while `Start` or
-- `CloseCurrentFile` runs finds `is_recording_` false or the context closed, and is dropped.
use pi_webrtc.Prelude.{
  ℕ, ◌+◌, ◌-◌, ◌*◌, Bool, true, false, not, ◌&&◌, ◌||◌, Option, none, some, List, [], ◌∷◌, ◌++◌,
  leb, eqb, if◌then◌else◌,
}

pub data RecordType : Type 0 where
  video snapshot both : RecordType

-- `width`, `height` and the like have no part in this. `file_duration` is in seconds.
pub record Config : Type 0 where
  pub record_type : RecordType
  pub file_duration : ℕ
  pub auto_start : Bool
  pub has_video : Bool
  pub has_audio : Bool

-- A context is known by its number. Times are microseconds.
pub record Recorder : Type 0 where
  pub config : Config
  pub fmt_ctx : Option ℕ
  pub next_ctx : ℕ
  pub header_written : Bool
  pub is_recording : Bool
  pub file_number : ℕ
  pub base_start_time : ℕ
  pub rotation_requested : Bool

-- `writes_header` carries whether FFmpeg took the header.
pub data Call : Type 0 where
  allocates : ℕ → Call
  opens_io : ℕ → Call
  adds_stream : ℕ → Call
  writes_header : ℕ → Bool → Call
  writes_frame : ℕ → Call
  writes_trailer : ℕ → Call
  closes_io : ℕ → Call
  frees : ℕ → Call
  starts_recorders stops_recorders makes_preview : Call

-- What the system answers to `Start`; mp4 is a format with a file.
pub record StartAnswer : Type 0 where
  pub has_space : Bool
  pub allocated : Bool
  pub opened : Bool

pub record Packet : Type 0 where
  pub is_key : Bool
  pub known_stream : Bool
  pub header_taken : Bool

abbrev pub create : Config → Recorder
create config = record {
  config = config;
  fmt_ctx = none;
  next_ctx = 0;
  header_written = false;
  is_recording = false;
  file_number = 0;
  base_start_time = 0;
  rotation_requested = false;
}

abbrev pub is_snapshot : RecordType → Bool
is_snapshot snapshot = true
is_snapshot _ = false

abbrev pub is_video : RecordType → Bool
is_video video = true
is_video _ = false

abbrev pub streams : Config → ℕ → List Call
streams config n =
    (if config.has_video then adds_stream n ∷ [] else [])
    ++ (if config.has_audio then adds_stream n ∷ [] else [])

-- The end of `Start`, once the container is there, or none is wanted.
unfoldable pub begin_recording : Recorder → Recorder × List Call
begin_recording r = (
  record r { is_recording = true },
  (if r.config.has_video || r.config.has_audio then starts_recorders ∷ [] else [])
      ++ (if is_video r.config.record_type then [] else makes_preview ∷ []),
)

unfoldable pub open_container : StartAnswer → Recorder → Recorder × List Call
unfolding begin_recording
open_container a r =
    let n = r.next_ctx in
    let (r', begun) =
      begin_recording (record r { fmt_ctx = some n; next_ctx = n + 1; header_written = false }) in
    if not a.allocated
    then (record r { fmt_ctx = none }, [])
    else if not a.opened
    then (record r { fmt_ctx = none; next_ctx = n + 1 }, allocates n ∷ frees n ∷ [])
    else (r', allocates n ∷ opens_io n ∷ (streams r.config n ++ begun))

unfoldable pub start : StartAnswer → Recorder → Recorder × List Call
unfolding open_container begin_recording
start a r =
    let r' : Recorder = record r { rotation_requested = not a.has_space || r.rotation_requested } in
    if is_snapshot r.config.record_type then begin_recording r' else open_container a r'

abbrev pub closing_calls : Bool → Option ℕ → List Call
closing_calls header none = []
closing_calls header (some n) =
    (if header then writes_trailer n ∷ [] else []) ++ closes_io n ∷ frees n ∷ []

unfoldable pub close_current_file : Recorder → Recorder × List Call
close_current_file r = (
  record r { is_recording = false; fmt_ctx = none; header_written = false },
  (if r.config.has_video || r.config.has_audio then stops_recorders ∷ [] else [])
      ++ closing_calls r.header_written r.fmt_ctx,
)

unfoldable pub stop : Recorder → Recorder × List Call
unfolding close_current_file
stop r = let (r', calls) = close_current_file r in (record r' { file_number = 0 }, calls)

-- The end of `WriteIntoFile`, once the header is written.
abbrev pub frame_calls : Packet → ℕ → List Call
frame_calls p n = if p.known_stream then writes_frame n ∷ [] else []

abbrev pub write_to : Packet → Option ℕ → Recorder → Recorder × List Call
write_to p none r = (r, [])
write_to p (some n) r =
    if r.header_written
    then (r, frame_calls p n)
    else if not p.is_key
    then (r, [])
    else if not p.header_taken
    then (record r { fmt_ctx = none }, writes_header n false ∷ closes_io n ∷ frees n ∷ [])
    else (record r { header_written = true }, writes_header n true ∷ frame_calls p n)

unfoldable pub write_into_file : Packet → Recorder → Recorder × List Call
write_into_file p r = if not r.is_recording then (r, []) else write_to p r.fmt_ctx r

-- The first frame of a recording sets the time from which the files are counted.
abbrev pub set_base : ℕ → Recorder → Recorder
set_base now r =
    if eqb r.file_number 0 then record r { file_number = 1; base_start_time = now } else r

-- A frame's time lies beyond the files so far. The code divides the microseconds as doubles.
abbrev pub is_due : ℕ → Recorder → Bool
is_due now r =
    leb r.base_start_time now
    && leb (r.file_number * r.config.file_duration * 1_000_000) (now - r.base_start_time)

-- The rotation at a frame, on the answer to its `Start`.
unfoldable pub rotate : ℕ → StartAnswer → Recorder → Recorder × List Call
unfolding close_current_file start
rotate now a r =
    let (closed, calls) = close_current_file r in
    let (started, calls') = start a closed in
    if is_due now r
    then (record started { file_number = started.file_number + 1 }, calls ++ calls')
    else (r, [])

-- The callback of `SubscribeVideoSource` at a frame, on the answers to the two calls of `Start`
-- that it may make. What it passes on to the recorder of video is left out.
unfoldable pub on_frame : ℕ → StartAnswer → StartAnswer → Recorder → Recorder × List Call
unfolding start rotate
on_frame now a b r =
    let (r₁, calls) = if r.config.auto_start && not r.is_recording then start a r else (r, []) in
    let (r₂, calls') = rotate now b (set_base now r₁) in
    if not r₁.is_recording then (r₁, calls) else (r₂, calls ++ calls')
