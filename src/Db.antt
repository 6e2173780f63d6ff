-- ===== src/Db.antt =====
-- The tables of the database and their queries, one module for each file of db/.
-- Ids, agent ids and uuids are numbers that are only compared, times are numbers.
pub mod Agent
pub mod AgentConnection
pub mod JanusBackend
pub mod OrphanedRoom
pub mod Recording
pub mod Room
pub mod Rtc
pub mod RtcReaderConfig
pub mod RtcWriterConfig
pub mod RtcStream
