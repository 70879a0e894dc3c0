-- ===== src/Game.antt =====
-- The game client: game_client/game_client/GameClient.h, GameClient.cpp and Player.h.
pub mod Future
pub mod Client
pub mod State
pub mod Network
pub mod Handlers
pub mod Dispatch
pub mod Lifecycle
pub mod Players
pub mod Stopped
pub mod Ports
pub mod Hosting
pub mod Loop
pub mod Schedule
pub mod Malformed
pub mod Refused
pub mod Admission
pub mod Gate
pub mod Handshake
pub mod Examples
pub mod Tasks
pub mod Migration
pub mod Runs
pub mod HandshakeRun
pub mod TaskRuns
