-- ===== src/Net.antt =====
-- The directory Net: buffers, event loops and connections.
pub mod Acceptor
pub mod Buffer
pub mod Channel
pub mod Epoller
pub mod EventLoop
pub mod LoopThreadPool
pub mod TcpConnection
pub mod TcpServer
