-- ===== src/Broker.antt =====
-- The message broker: mbroker/mbroker.c.
pub mod Types
pub mod Texts
pub mod Manager
pub mod Create
pub mod Listing
pub mod Publish
pub mod Tasks
pub mod Answer
pub mod Table
pub mod Claims
pub mod ChangePassword
pub mod Passwords
pub mod UnlinkBox
pub mod Removal
pub mod ClaimSteps
pub mod CreateBox
pub mod Creation
pub mod Ready
pub mod PublishWrites
pub mod PublishLoop
pub mod Dispatch
pub mod ListSent
pub mod Responses
pub mod Serving
pub mod Publishers
pub mod Sample
mod Tests
mod RunTests
