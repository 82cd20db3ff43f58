-- ===== src/Channel.antt =====
-- src/rtc/datachannel: the data channels between the device and its peer.
pub mod Role
pub mod Packet
pub mod Framing
pub mod Outbound
pub mod Stream
pub mod Ipc
pub mod Command
mod Tests
