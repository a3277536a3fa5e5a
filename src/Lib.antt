-- ===== src/Lib.antt =====
-- An embedded key-value library (Go): a log-structured store, an index over a file of lines, a sorted
-- index in files, and a pool that opens and closes such resources by name.
--
-- The parts and their files:
--   Base: Boolean tests, lists with native numbers, results with the errors of
--     internal/kvtypes/errors.go, and association lists for Go's maps.
--   Bytes: the words of internal/kvtypes/binaryio.go, CRC-32, readers of byte streams, and the frame
--     that all files share, a magic in front and a checksum at the end.
--   Bitcask: internal/bitcask. Record is record.go; Segment is segment.go, a file as a list of bytes;
--     Db is kv.go and the writing half of db.go, a record with the map of segments, of which the code's
--     pointers are ids; Snapshot is index_snapshot.go; Recovery is recovery.go with Open and Close of
--     db.go; Compaction is compaction.go with Stats of db.go. IndexSpec is what the store asks of the
--     index: operations, and the laws of a map. HashIndex is index.go and arena.go: the slots, the
--     probes, the rehash and the key arena, over any hash function; HashIndex.Laws fills IndexSpec.
--   FileIndex: internal/fileindex/fileindex.go. The state is the file's bytes and the index in memory.
--   SortedIndex: internal/sortedindex. Format holds the file formats: runs and the index
--     (sortedindex_build.go, sortedindex.go), the sparse directory, the source list
--     (sortedindex_sources.go) and the Bloom filter's file (bloom.go). Bloom is the filter itself, over
--     any two hash functions. Merge is mergeRuns of sortedindex_build.go. Build is the rest of that
--     file, sortedindex_refresh.go and EnsureFresh of sortedindex_sources.go: the scan of the sources
--     into runs, the build, the refresh and the choice between them. Lookup is sortedindex.go: opening
--     the files, Get, Has, Prefix and All. Build uses FileIndex for the lines of a file and their keys.
--   Pool: internal/pool/pool.go. Pool.Sections makes each critical section of a call one step, so that
--     a run is any interleaving of calls.
--   Iterator: internal/kvtypes/iterator.go; the keys are a snapshot, the values are read at each Next.
--   FileStore: filestore.go, a file index as a store of values, over a line codec.
--   Typed: store.go and typed.go, buckets over an interface of a store and a codec.
--   Tests: hash indexes, and runs at concrete inputs.
--
-- An operation of the code is a function of the same name in snake case, from the state to the new
-- state and a result. Errors are values. The store of the code asks its index for locations, appends
-- records to its active segment and reads values back from the segments; recovery feeds the index
-- from a walk over the segments.
--
-- Numbers are natural numbers; where the code converts to 32 bits, the wrap is written out. A byte
-- is a number, and a theorem that needs a number to fit its field says so. The loops over a segment
-- and over the lines of a file run on fuel, one more than the number of bytes, which is enough since
-- every round takes at least one byte; so do the loops over the entries of an
-- index and of a merge, and a probe of the hash index has as many rounds as there are slots;
-- where such a loop returns a value, out of fuel returns the value reached so far, and else an error.
-- Compaction passes run on fuel that the caller gives.
--
-- Not modelled: system calls (mapping, syncing, renaming and removing of files succeed), the
-- residency cache, which only selects one of two ways to read the same bytes, timers and
-- goroutines; the time of a call and the number of bytes that a write transfers are arguments.
-- The library's heap and sort, which take the code's comparisons, are arguments of the merge and of
-- the build, with what they document as hypotheses, and so are the cancellation of a context and the floating-point formulas that size a
-- filter. The locks that order builds of one index, the methods of the
-- stores that make iterators, the managers and the JSON codecs are not modelled.
pub mod Base
pub mod Bytes
pub mod SortedIndex
pub mod Bitcask
pub mod FileIndex
pub mod Pool
pub mod Iterator
pub mod FileStore
pub mod Typed
pub mod Tests
