-- ===== src/Bytes.antt =====
-- Go's encoding/binary and hash/crc32 as the on-disk formats use them, and the readers and writers
-- of internal/kvtypes/binaryio.go.
pub mod Checksum
pub mod Words
pub mod Reader
pub mod Frame
