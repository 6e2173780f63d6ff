-- ===== src/Endpoint.antt =====
-- The HTTP endpoints, src/app/endpoint.
pub mod AgentReaderConfig
pub mod AgentWriterConfig
pub mod Cleanup
pub mod ConnectAndSignal
pub mod Group
pub mod Handler
pub mod Helpers
pub mod Room
pub mod Rtc
pub mod Listing
pub mod Message
pub mod RtcConnect
pub mod RtcSignal
pub mod RoomEnter
pub mod RoomUpdate
pub mod Subscription
pub mod System
pub mod Vacuum
