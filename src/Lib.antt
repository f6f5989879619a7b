-- ===== src/Lib.antt =====
-- Samogon, a torrent store on S3: torrents are downloaded into a bucket of pieces named by their
-- hashes, and served from there over SFTP. This library models the parts that decide what is stored,
-- deleted and read.
--
-- The parts and their files:
--   Throw: throw.go. A panic is the end of a run over a state, `thrown` if `Try` recovers it and
--     `crashed` if not; what was done to the state stays done.
--   Config, Config/Keys: config.go. The keys of torrents and pieces, the environment, and validate.
--   Cache, Cache/Index, Cache/Refine, Cache/Runs: cache.go. `container/list` is a list of elements
--     with addresses, the map goes from keys to addresses; each method is one step, as it holds the
--     mutex.
--   Storage, Storage/Client, Storage/Laws: storage.go. The S3 client is a record of calls, and
--     `IsLawful` says what its documentation promises of them.
--   Meta, Meta/Parsed, Meta/Offsets, Meta/Prune, Meta/Order, Meta/Reload: meta.go. What the torrent
--     library gives for a .torrent is a record and its parse a parameter.
--   Sftp, Sftp/Paths, Sftp/Listing: sftp.go, the handlers for paths.
--   File, File/Prefix, File/Good, File/Safe, File/Alone, File/Exact: sftp.go, `virtualFile`. A call of
--     `getPiece` is a sequence of steps, and between them stand any steps of other goroutines on the
--     cache and the store. `ReadAt` loops at most once for each byte asked for, since each round copies
--     a byte or breaks: this is the fuel.
--   Gc, Gc/Pool, Gc/Mark, Gc/Kept, Gc/Owed, Gc/Reached, Gc/Sweep, Gc/Stale, Gc/Whole, Gc/Count, Gc/Tally:
--     gc.go. The steps of the workers, a read of a .torrent, a store of one hash, a deletion, come in any
--     order between the sends and in the waits; how many workers there are only rules orders out, and
--     with none the first send waits for ever. A panic of a worker or of the lister ends the process. A
--     worker's loop has a round for each hash and one for the end. Pool is `pmap` by itself, with the
--     number of its workers, as a step relation.
--   Fetch, Fetch/Slots, Fetch/Buffer, Fetch/Commit, Fetch/Calls, Fetch/Puts, Fetch/Stored,
--   Fetch/Whole: fetch.go.
--     `WriteAt`, which waits for a slot with its lock released, is one function for each part under the
--     lock, and so are `MarkComplete`, which reads its buffer, puts it and locks again, and the receive
--     that gives a slot back with no lock held. Slots is the step relation of all goroutines on the slots
--     and the buffers, and Calls that of the calls of the torrent client, with the bucket. The client is a
--     parameter that works on the storage.
--   Repack, Repack/Target, Repack/Stream, Repack/Reads: repack.go, the infohash in the argument and
--     `pieceStream`. The loop of `Read` has one round for each byte asked for and for each piece, since
--     a round copies a byte or ends a piece.
--   Repack/Upload, Repack/Job, Repack/Full, Repack/Pack, Repack/Steps, Repack/Drain, Repack/Emit,
--     Repack/Loop, Repack/Wait, Repack/Cut, Repack/Commit, Repack/Collected: repack.go, `runRepack`, alone
--     and with a garbage collection after it. An upload is two steps, the question whether the piece is
--     there and the put, and the uploads' steps come in any order, between the reads and in the wait
--     after them; a panic of one ends the process. The loop has a round for each `ReadFull`;
--     more rounds than the stream has bytes are enough. The wait has two rounds for an upload that has
--     not asked and one for one that has.
--   Get, Get/Copy, Get/Whole, Get/Command: get.go, the reload, the choice of the file and the loop that
--     copies it, with a round for each byte of the file, since a round copies a byte or ends the loop.
--   Bench, Bench/Apart: bench.go. How many objects each worker writes before the deadline is a parameter.
--   Get2, Get2/Cover, Get2/Work, Get2/Count: get2.go, the pieces of a file and the fetch of each of them, which ends in
--     any order among those of the other workers. Offsets and sizes are natural numbers; the division is
--     Go's, towards zero.
--   Serve, Serve/Login, Serve/Keys, Serve/Session, Serve/Life: serve.go. The callbacks of the ssh
--     configuration are functions; the file of keys is read with a round for each of its bytes, since a
--     key takes one. Session is the step relation of the two goroutines of `handleSession` and the
--     channel between them. Life is the sequence of reloads, with any changes of the bucket in between.
--   Bot, Bot/Arguments, Bot/Orders: bot.go. A message is turned into replies and runs of gorn; the
--     Telegram API and the command are a record of calls.
--   Main, Main/Exit: main.go. The commands are runs over a state, and the process ends with a code.
--   Config/Args, Config/Accepted: the argument parsing of all commands; `Parse` of package flag is a
--     parameter.
--   Strings: what is used of Go's `strings` and `path`. Base: numbers, lists, maps, byte strings.
--   Tests: runs on small inputs over a bucket in memory, and the theorems at concrete arguments.
--
-- How they interact: fetch writes pieces and then the .torrent; meta reads the .torrents; sftp finds
-- a file in meta and reads its pieces through the cache from storage; gc lists the .torrents and
-- deletes the pieces that none of them names. serve reloads meta all its life and lets users in to sftp;
-- get reloads it once and copies a file; repack reads the pieces of a torrent and writes those of another;
-- bot starts fetch on another host; main chooses one of them.
--
-- Bounds: sizes and offsets are natural numbers; int64 offsets of files below 2^63 bytes agree with
-- them. A negative offset of a read is an integer of its own.
--
-- Not modelled: other orders of the workers of bench.go; steps of uploads after a panic of the loop of
-- repack.go; the scratch directory of fetch.go; an output file of get.go that cannot be
-- created or written, which throws and leaves the bucket alone; the sockets and the handshake of serve.go, the usage text
-- of main.go and colors.go, which drive libraries and the terminal; logging and progress; S3 client
-- set-up; times and modes of files.
pub mod Base
pub mod Bench
pub mod Bot
pub mod Cache
pub mod Config
pub mod Fetch
pub mod File
pub mod Gc
pub mod Get
pub mod Get2
pub mod Main
pub mod Meta
pub mod Repack
pub mod Serve
pub mod Sftp
pub mod Storage
pub mod Strings
pub mod Tests
pub mod Throw
