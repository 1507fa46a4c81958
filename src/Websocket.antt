-- ===== src/Websocket.antt =====
-- internal/websocket: the hub of connected clients and its rooms.
pub mod Hub
pub mod HubLaws
pub mod Broadcast
pub mod Dropped
mod Examples
