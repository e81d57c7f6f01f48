-- ===== src/Lib.antt =====
-- Blobcast: files in the blobs of Celestia, and a chain of blocks that every node derives from them.
--
-- A node reads the blobs of each Celestia height. A blob holds a chunk of a file, the manifest of a
-- file (its chunks, size and hash) or the manifest of a directory (its files and the Merkle root
-- over them). The node checks each manifest against what it has already stored, gathers what it
-- accepts in a block, links the block to the one before, adds the block's Merkle roots to a Merkle
-- mountain range whose root the header holds, and commits all of it in one transaction.
--
-- The files, and the code that each is about:
-- - Util: pkg/util/bytes.go, pkg/util/uint.go and a part of pkg/util/string.go. A byte string is a
--   list of numbers. Util/Slice is Go's slice expressions, with the bytes that stand behind a slice
--   in its backing array.
-- - Crypto: pkg/crypto/crypto.go. BLAKE3 is the parameter `Blake3`, a function into 32 bytes.
--   Crypto/Merkle is pkg/crypto/merkle/merkle.go. Crypto/Mmr is pkg/crypto/mmr/mmr.go, with
--   proofs.go in Crypto/Mmr/Proofs and Crypto/Mmr/Position and snapshot.go in Crypto/Mmr/Snapshot.
-- - Types: pkg/types/blob.go in Types/Blob and Types/Text (base 36 is the parameter `Base36`), and
--   pkg/types/block.go in Types/Block. The package's cache of header hashes is a map that is passed
--   along (Types/Block/Cache).
-- - State: pkg/state. The keys are in State/Keys, the store and the stored messages, which are the
--   parameters `Pebble` and `Protobuf`, in State/Store, chain.go in State/Chain, and transaction.go
--   in State/Transaction. An error and a panic are two results of `Outcome`. The maps that a
--   finished transaction sets to nil are options.
-- - Sync: pkg/sync/chain.go. Sync/Monad is the state that a height changes: the transaction, the
--   cache of hashes, and the next free address, since the pending file manifests are keyed by
--   pointers. Sync/Blobs checks blobs and manifests, and Sync/Blocks makes, applies and commits the
--   block of a height. Celestia is the parameter `BlobStore` there. Sync/Loops and Sync/Start are the
--   loops of SyncChain: what LatestHeight and the subscription answer are lists, and the rounds run
--   on fuel, whose end is a result of its own.
--   Sync/Submit is pkg/sync/submit.go: a step of a producer, of Close or of the loop is a step of
--   a relation, and what was submitted, received, sent and replied is kept beside the state.
--   Sync/Stream is what pkg/grpc/sync/server.go streams and how pkg/sync/grpc.go takes it apart;
--   Sync/Batch and Sync/Remote are the committer of that file and the decision where to begin; the
--   calls that receive from the stream are left out. Types/Block/Proto has the messages of a block,
--   and `Timestamps` stands for timestamppb.
-- - Celestia: the submission of blobs in pkg/celestia/celestia.go; the client of celestia-node is
--   the parameter `Client`. The retries of pkg/util/retry.go are in Util/Retry, for any operation
--   on any world; what a wait comes to is a parameter.
-- - Node: pkg/api/node, the reads that a node answers from its state, in Node/Height after
--   a height was derived, and in Node/Service the storage service of pkg/grpc/storage/server.go,
--   which passes them on.
-- - Upload: `Split` of pkg/fileutil/fileutil.go, the records of pkg/state/upload.go, and `PutFileData`
--   of pkg/sync/sync.go with `PutFileManifest` of pkg/sync/manifest.go. JSON and the marshalling of an
--   envelope are parameters; what the channels of the submitter give is a function of the position.
-- - Gateway: cmd/gateway/start.go, the Range requests for a file, on its bytes, and the pages of a
--   directory listing. `strconv.Atoi` is written out for the texts that reach it.
-- - Runs: the theorems at concrete inputs.
-- - Prelude: names of the library, tests on numbers, lists, maps and results.
--
-- Bounds. A uint64 is a number whose additions are taken modulo 2^64. The loop of the Merkle tree
-- has as much fuel as leaves, which is enough as a round halves the nodes; the walk up a mountain
-- range has 64 rounds, one for each level. The loops on machine words in Crypto/Mmr/Position run
-- over the 64 bits. `peakPositionsAtSize` takes a logarithm in floating point and is a parameter of
-- `verify_inclusion_proof`. An allocation of more than 2^48 bytes panics. `Split` has one round more
-- than bytes, as each takes a byte at least.
--
-- Not modelled: log lines, but for the hashes that they put in the cache; locks, opening the
-- database, the location of a time, and the order of Go's maps, which no result depends on. The
-- subscribers of headers, the index, the walk over the files of a directory, the receiving side of
-- the stream of blocks, the explorer, the REST and rollup servers, the rest of the gateway and the
-- other commands are not modelled either: they are input and output, calls of other libraries, or
-- left for later.
pub mod Prelude
pub mod Util
pub mod Crypto
pub mod Types
pub mod State
pub mod Celestia
pub mod Node
pub mod Gateway
pub mod Sync
pub mod Runs
pub mod Upload
