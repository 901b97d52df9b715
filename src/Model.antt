-- ===== src/Model.antt =====
-- The data that the backend keeps, the exceptions that it throws, and the effects of its services.
mod Entities
mod Errors
mod Effects
mod Hashes
mod Messages
mod Progress
mod Inversion
pub use Entities.*
pub use Errors.*
pub use Effects.*
pub use Hashes.*
pub use Messages.*
pub use Progress.*
pub use Inversion.*
