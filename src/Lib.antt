-- ===== src/Lib.antt =====
-- go-common: Go packages that services share. This library models the parts of it that carry logic
-- of their own, and proves what makes them correct.
--
-- Parts and files. The ring buffer uses the powers of two of pkg/utils/math.go. In pkg/mq/forge the
-- log uses its segments, a segment its index and the batches, and a batch its records; the other parts do
-- not call each other.
--   - Algorithm/Search: pkg/algorithm/search.go. `binary_search` is BinarySearch over 64-bit integers
--     with their wrap-around. The loop has fuel 65, one round more than the range of an int64 can be
--     halved.
--   - Algorithm/CircuitBreaker: pkg/algorithm/circuit_breaker.go. `allow`, `record_success`,
--     `record_failure`, `reset` and the options are the methods; the clock is an argument, and a
--     change of state that is reported to the callback is an answer of the call.
--   - Algorithm/Evict: pkg/algorithm/lru.go and lfu.go. The random draws are an argument.
--   - Buffer/Ring: pkg/datastructs/buffer/ring.go. The record is the struct; Buffer/Ring/Grow holds
--     growth and the operations that write, Buffer/Ring/Streams those on streams. The growth loop has
--     fuel 5: to grow by a quarter five times more than doubles a capacity. The loop of ReadFrom has
--     fuel for the answers of the reader. Capacities are below 2^62.
--   - Buffer/LinkedList: pkg/datastructs/buffer/linked_list.go. `nodes` are the slices of the list's
--     nodes from head to tail. The loops are by recursion on them; readers are what they answer, a
--     writer has a state, and a copy has the capacity of the slice that the pool hands out.
--   - Dto/Pagination: pkg/dto/pagination.go.
--   - Encoding/Base62: pkg/encoding/base62.go and pkg/encoding/base62/base62.go. A string is a list of
--     characters; a big.Int is a number, and its loop has its value as fuel.
--   - Mq/Forge: pkg/mq/forge, the log. Varint and Record are record_codec.go, Batch is record.go and
--     compressor.go, Index is index.go, Segment is segment.go and CommitLog is commit_log.go. A file
--     is the list of its bytes. What the system does in a call is an argument: the files that are
--     there, the time, whether a write or a sync fails, whether a file can be mapped or removed. A
--     segment has a flag for its open files: Close and Remove clear it, and a failed Remove leaves
--     the closed segments listed. A loop over encoded batches has one round more of fuel than there
--     are bytes, since a batch takes twelve bytes or more; the loop of a recovery over chunks is
--     given its fuel, and opening a segment gives it one round more than the file has bytes, since a
--     round reads a byte or more unless a whole chunk is carried over. A decoder answers a value, an
--     error, or a panic. The functions of CRC32C and of LZ4 are a record of operations with their
--     laws. The decompression loop has fuel 25, since a size of one byte or more passes its maximum
--     of 2^24 in as many doublings.
--   - Unique/Snowflake: pkg/unique/snowflake.go, with the settings of pkg/settings/config.go. The clock
--     is the list of its readings; the loop that waits is by recursion on them.
--   - Utils/Math: pkg/utils/math.go, powers of two and spread bits; bits.Len has fuel 64.
--   - Common: lists, slices, bits and 64-bit integers, shared by all.
--
-- Conventions. A Go `int` or `int64` that can be negative is a `ℤ`, and what the code stores is
-- `i64` of the exact result (Common/Int); a count that no caller makes negative is a native `ℕ`, with
-- the bound below which nothing wraps stated beside the definitions. A method that changes its
-- receiver returns the new record. Clocks, random numbers, the byte pool and hash functions are
-- arguments. `none` is a panic or an error where the file says so. Locks are not modelled: a method
-- holds its lock from beginning to end, so calls happen one after another.
--
-- Not modelled: the drivers and glue over libraries (pkg/database, pkg/mq/kafka, pkg/common/http,
-- pkg/logger, pkg/oauth, pkg/security), since they are I/O; the estimators and limiters over floats;
-- and, so far, the other structures of pkg/datastructs, the merging of segments, the broker and the
-- clients of pkg/mq/forge, pkg/encoding/json and pkg/pool. Two segments share no file in the model.
pub mod Common
pub mod Utils
pub mod Unique
pub mod Dto
pub mod Encoding
pub mod Buffer
pub mod Algorithm
pub mod Mq
