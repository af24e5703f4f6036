-- ===== src/Model.antt =====
-- src/model.rs: the report and its evidence. The serialisation attributes are not modelled; the
-- names in JSON that other parts rely on are written where those parts are modelled.
mod Kinds
mod Evidence
mod Collectors
mod Report
pub use Kinds.*
pub use Evidence.*
pub use Collectors.*
unfoldable pub use Report.*
