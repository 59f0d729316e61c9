-- ===== src/Messages.antt =====
-- The messages between the modules, src/utils/src/utils/package.c and send.c.
pub mod Packages
pub mod Sending
pub mod Delivery
pub mod Trips
pub mod Dumping
pub mod Tests
