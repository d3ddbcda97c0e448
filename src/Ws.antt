-- ===== src/Ws.antt =====
-- The authenticated user channel: auth/ws/*.rs.
pub mod State
pub mod Frame
pub mod StateCell
pub mod Connection
pub mod Events
pub mod Wire
pub mod Retirement
pub mod Session
