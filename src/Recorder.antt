-- ===== src/Recorder.antt =====
-- src/recorder/recorder_manager.cpp: the files that the frames of a camera are recorded to. `Muxing` is the
-- container of the current file, `Naming` the files' names, and `Disk` the removal of old files.
pub mod Muxing
pub mod Events
pub mod Protocol
pub mod Overlap
pub mod Naming
pub mod Disk
mod Tests
