-- ===== src/Sockets.antt =====
-- The sockets of ch06/common: buffers in front of the kernel's, and the server's lists.
pub mod Tcp
pub mod Mcast
pub mod Server
pub mod Create
pub mod Open
