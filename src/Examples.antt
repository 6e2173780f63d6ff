-- ===== src/Examples.antt =====
-- The theorems at concrete inputs, and tests.
mod ConnectRuns
mod EntryRuns
mod MediaRuns
mod OutboxRuns
mod TableRuns
mod WaitlistRuns
mod GroupRuns
mod JanusRuns
mod MessageRuns
mod RoomRuns
