-- ===== src/Socket.antt =====
-- src/features/socket.gateway: the rooms and the presence of the connected users.
pub mod Rooms
pub mod Presence
pub mod Gateway
