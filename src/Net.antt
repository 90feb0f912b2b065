-- ===== src/Net.antt =====
-- Net/inc/Net and Net/src: sockets and who owns them, what the messages look like on the wire, and the
-- peers that connect, send, listen and receive.
pub mod Wire
pub mod Sockets
pub mod Ownership
pub mod Frames
pub mod Connection
pub mod Receiving
pub mod Arriving
pub mod Client
pub mod Listener
pub mod Reaping
pub mod Serving
pub mod Datagrams
pub mod Stray
pub mod Multicast
pub mod Publishing
