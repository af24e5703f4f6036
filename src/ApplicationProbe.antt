-- ===== src/ApplicationProbe.antt =====
-- src/probe/application.rs: the application protocol over a connection, directly and through a proxy.
pub mod Stream
pub mod Socks
pub mod Lines
pub mod Http
pub mod Attempt
pub mod Tunnel
pub mod Loop
