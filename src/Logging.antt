-- ===== src/Logging.antt =====
-- The directory Logging.
pub mod LogStream
pub mod AsyncLogging
pub mod LogFile
pub mod Logger
pub mod Pipeline
pub mod Writer
