-- ===== src/WebSocket.antt =====
-- src/signaling/websocket_client.cpp: one connection to a WebSocket server. `Client` is the handlers, `Runs` what
-- holds of every run of them, `Closing` the close callback, `Frames` the close frame, `Order` the frames sent.
pub mod Client
pub mod Runs
pub mod Closing
pub mod Order
pub mod Frames
mod Tests
