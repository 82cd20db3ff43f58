-- ===== src/Mqtt.antt =====
-- src/signaling/mqtt_service.cpp: signaling over MQTT topics. `Topic` is the names of topics, `Service` the
-- handlers, on the registry of peers of `Peers`. A text that is walked is the list of its bytes.
pub mod Topic
pub mod Service
pub mod Mapping
pub mod Routing
mod Tests
