-- ===== src/Serialize.antt =====
-- src/utils/src/utils/serialize/: how values travel in a payload.
--
-- A serializer adds the bytes of a value at the cursor of the payload, a deserializer removes them.
-- The calls of malloc for the destination of a deserializer belong to the C library: `malloc n` is
-- the parameter that says whether it grants n bytes. The functions *_log only write to a log.
pub mod Bytes
pub mod Scalars
pub mod Blocks
pub mod Context
pub mod Transfer
pub mod RoundTrip
pub mod BlockTrip
pub mod Tests
