-- ===== src/Mqtt.antt =====
-- internal/mqtt: the client, and the discovery records of Home Assistant.
pub mod Client
pub mod Topic
pub mod Cleanup
pub mod Discovery
