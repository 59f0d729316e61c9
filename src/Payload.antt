-- ===== src/Payload.antt =====
-- src/utils/src/utils/payload.h and payload.c: a growing byte stream with a cursor.
--
-- The stream is the list of the bytes that it holds; NULL is the empty list, since the code never
-- keeps a block of no bytes. realloc belongs to the C library and is a parameter: it may fail. The
-- pointers that the functions test against NULL (the payload, the destination of `payload_read`)
-- are never NULL here, by their types.
pub mod Defs
pub mod Cursor
pub mod Overwrite
pub mod Seek
pub mod Frame
pub mod Tests
