-- ===== src/Lib.antt =====
-- MinusSync: version control and file synchronization, a verification library.
--
-- The program keeps the files of a working tree in a content-addressed object store
-- (internal/object), records what is staged in an index (internal/index), and exchanges objects
-- with a server through a protocol of frames (internal/protocol). Large files are cut into chunks
-- by their content and sent as binary deltas (internal/delta); texts that changed on both sides are
-- merged by lines (internal/merge). All objects are named by SHA-256 (internal/hash).
--
-- Files, and what they model:
--
--   Prelude        lists, strings, results, big-endian numbers, fmt on numbers, lines and fields,
--                  filepath.Join, sort.Search and sort.Slice: what all modules share.
--   Hash           internal/hash/hash.go. A hash is 32 bytes.
--   Delta          internal/delta/delta.go and patch.go. ApplyDelta, EncodeDelta and DecodeDelta in
--                  the module itself, ComputeDelta and compactOps in Delta.Compute.
--   Chunking       internal/delta/chunk.go and fastcdc.go. Split is split, findChunkBoundary is
--                  find_chunk_boundary; BuildSyncPlan is in Chunking.Plan.
--   Merge          internal/merge/merge.go on the edits of internal/diff/diff.go. Uncovered describes
--                  the lines that applyEdits keeps.
--   Object         internal/object: Header is ParseHeader and Format of object.go, Store is Write and
--                  Read of object.go with blob.go, Tree is tree.go with Listing for ReadTree and
--                  ListTree. Commit is commit.go with Person for the author line and its time zone,
--                  Tag is tag.go. Pack is pack.go: AddObject and Close are add_object and
--                  close_pack, OpenPack and ReadObject are open_pack and read_object, UnpackObjects
--                  is unpack_objects.
--   Protocol       internal/protocol: Frame is encode.go and decode.go, Payloads is client.go and
--                  server.go, Wire is wire.go.
--   Server         internal/msyncd/daemon.go: handleConnection is handle_connection.
--   Index          internal/index/index.go: find, add and remove on the sorted entries, Codec for
--                  Load and Save, Changes for Dirty with internal/util/fingerprint.go.
--                  Sorted is the map that Refines compares them with.
--   Ignore         internal/ignore/ignore.go: globMatch is glob_match, IsIgnored is is_ignored, and
--                  File is Load and Save. Spec says what a pattern describes.
--   Refs           internal/refs/refs.go and head.go: references, tags and HEAD on a map of files.
--   Gc             internal/gc/gc.go: markReachable is mark, Collect is collect in Gc.Collect. It
--                  reads objects with Object and takes its roots from references.
--   Fsck           internal/fsck/fsck.go: Verify is verify, on a listing of the objects directory.
--   Config         internal/config/config.go: Get, Set, Unset and RemoveSection on sections of
--                  entries, and File is Load.
--   Search         internal/search/index.go and query.go: Search, intersectPostings and sortResults
--                  on an index, and ParseQuery.
--
-- Conventions. A byte slice or a string is a list of numbers; the conditions that these are bytes
-- stand in the theorems that need them. Machine integers are natural numbers with their wrap-around
-- written out. A function that returns an error is a Result with the errors of its package as a
-- data type, and a third constructor for a run-time panic. A reader is the bytes that it still has,
-- a writer a function on its state. SHA-256 is a parameter, compute, of the modules that call it;
-- that no other data has the same hash is a hypothesis of the theorems that need it, about the one
-- value in question. The compression of packs is a parameter too, compress and decompress. The
-- objects directory is a map from paths to contents, and each call of the file system that Write
-- makes can fail, the removal of its temporary file included: its Outcome says so. References are
-- files at the paths that filepath.Join and Clean leave, which Prelude.Paths has. Slices are
-- values: an append that writes into memory that another slice shares, as in compactOps, is not
-- seen; the slices that ComputeDelta makes are adjacent, so it writes what is there. A Go map is a
-- list of entries, and where a loop goes over one, its order is an argument; so are the listings
-- of os.ReadDir and the clock.
--
-- Fuel. The loops that are not recursion on a list carry fuel: DecodeDelta and ParseTree the length
-- of their input, since each turn takes a byte at least; ComputeDelta the length of the target;
-- Split the length of the data; sort.Search the length of the slice; the printing of a number n has
-- n + 1 turns; mergeEditLists has as many turns as there are edits on both sides, and a
-- connection as many as there are messages. For a pattern without two stars in a row,
-- globMatch is given length name * (length pattern + 2) + length pattern + 1 turns, after which it
-- has returned; markReachable goes no deeper than there are hashes it can meet.
--
-- Not modelled: the command line, sockets and TLS, the compression itself, and the calls of the
-- file system outside the object store, the references and the checks, which are input and output
-- only; nor are Myers diff, the printer of the configuration, the tokenizer and the update of the
-- search index, the functions of tree.go that walk a directory, and the client's side of the
-- exchanges.
pub mod Prelude
pub mod Hash
pub mod Delta
pub mod Chunking
pub mod Merge
pub mod Object
pub mod Protocol
pub mod Index
pub mod Server
pub mod Ignore
pub mod Refs
pub mod Gc
pub mod Fsck
pub mod Search
pub mod Config
