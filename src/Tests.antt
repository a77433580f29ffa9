-- ===== src/Tests.antt =====
-- Runs at concrete inputs.
pub mod Acceptors
pub mod Buffers
pub mod Channels
pub mod Connections
pub mod Logs
pub mod Loops
pub mod Requests
pub mod Responses
pub mod Servers
pub mod Programs
pub mod RemoteCalls
pub mod TcpServers
pub mod ThreadPools
pub mod Timers
