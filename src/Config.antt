-- ===== src/Config.antt =====
-- internal/config: the settings and the file of environment variables.
pub mod Settings
pub mod EnvFile
