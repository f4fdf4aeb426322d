-- ===== src/Ftp.antt =====
-- The file transfer program of lab1: a server with epoll, and a client with a prompt.
pub mod Exec
pub mod Stream
pub mod Message
pub mod Talk
pub mod Files
pub mod Server
pub mod Client
pub mod Session
mod Tests
