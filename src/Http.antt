-- ===== src/Http.antt =====
-- The directory Http: requests, their parser, responses and the server.
pub mod Request
pub mod Parser
pub mod Response
pub mod Server
