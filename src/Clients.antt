-- ===== src/Clients.antt =====
-- src/clients.c: what the server does for one client.
pub mod Receive
pub mod Levels
