-- ===== src/Irc.antt =====
-- irc.c: lines of the IRC protocol, and the client's buffers.
pub mod Line
pub mod Buffer
pub mod Send
pub mod Read
pub mod Umode
pub mod Name
pub mod Channel
pub mod User
pub mod Channels
pub mod Names
pub mod Login
pub mod Exec
