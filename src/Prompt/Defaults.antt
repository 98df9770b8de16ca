-- ===== src/Prompt/Defaults.antt =====
-- internal/prompt/prompt.go and templates_ja.go: the built-in templates.
mod English
mod Japanese
unfoldable pub use English.*
unfoldable pub use Japanese.*
