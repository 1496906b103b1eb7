-- ===== src/Config.antt =====
-- internal/config: how a configuration file becomes a configuration. Lines has the expansion of
-- environment variables, Defaults the values that stand for unset ones, Validation the checks. YAML,
-- koanf, and package regexp and net/url are parameters.
pub mod Lines
pub mod Defaults
pub mod Validation
