-- ===== src/Memory.antt =====
-- Byte memory as the C sources use it: a function from addresses to bytes, with the calls of
-- <string.h> that fs/state.c and fs/operations.c make, and the int objects that they keep in it
-- (four bytes, the least significant first). A C string outside the memory is the list of its bytes
-- before the terminating 0. `first_index` is the loop that the sources write five times: the first
-- index, from `i` on, that passes a test.
pub mod Bytes
pub mod Names
pub mod Scan
pub mod Arrays
