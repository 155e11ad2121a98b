-- ===== src/Transform.antt =====
-- transform: the data model of a stage, and the runner that merges what the plugins ask for.
pub mod ApiVersion
pub mod Grouping
pub mod JsonPatch
pub mod Runner
mod Tests
pub mod NewResource
pub mod Util
pub mod OptionalFields
pub mod DuckType
