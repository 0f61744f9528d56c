-- ===== src/Client.antt =====
-- The broker's clients: manager/manager.c, publisher/pub.c and subscriber/sub.c.
pub mod Requests
pub mod Managing
pub mod Listing
pub mod Shown
pub mod Session
pub mod Printed
pub mod Boxes
pub mod Created
mod Tests
