-- ===== src/Contract.antt =====
-- apps/backend/app/contracts/v1.py: the gp05.v1 contract that the cockpit and the platform share.
mod Enum
mod Names
mod Models
mod Permissions
unfoldable pub use Enum.*
unfoldable pub use Names.*
unfoldable pub use Models.*
unfoldable pub use Permissions.*
