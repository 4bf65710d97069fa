-- ===== src/Tests.antt =====
-- Concrete runs of the models, and instances of the theorems.
mod Samples
mod TupleList
mod ServiceSamples
pub mod RunStoreTests
pub mod WorkflowTests
pub mod QueueTests
pub mod AuthorizationTests
pub mod AccessTests
pub mod RoleTests
pub mod NamingTests
pub mod ServiceTests
