-- ===== src/Media.antt =====
-- src/recorder/media_query.cpp: the recordings that a client asks for. `Base64` is the text of a thumbnail, `Folders`
-- the files in a tree of folders, and `Search` the walks through it.
pub mod Base64
pub mod Folders
pub mod Search
pub mod Walk
pub mod Older
mod Tests
