-- ===== src/Cloud.antt =====
-- What pkg/elb sees of the world outside the repository: the SDK's resources and calls, the errors,
-- and the state that a call of the provider runs on.
mod Errors
mod Resources
mod Calls
pub mod Exec
pub mod Fallible
unfoldable pub use Errors.*
pub use Resources.*
pub use Calls.*
unfoldable pub use Exec.*
