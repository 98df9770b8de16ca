-- ===== src/Domain/Models.antt =====
-- internal/domain/models.go and errors.go: `Enums` has the types of named constants, `Records` the
-- entities, `Errors` the error value.
mod Enums
mod Records
mod Errors
pub use Enums.*
pub use Records.*
unfoldable pub use Records.{count}
pub use Errors.*
unfoldable pub use Errors.{error_code}
