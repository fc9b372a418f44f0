-- ===== src/Lib.antt =====
-- Chorrent, a library that shares files between peers: a seeder hashes a file or a folder into a
-- manifest, and a downloader fetches the manifest from any peer, checks it against the share code,
-- and then fetches the pieces of 64 KiB from many peers at once. These modules model the parts of
-- crates/chorrent/src that decide what is fetched, from whom, and where it goes.
--
-- How the parts interact: the downloader decodes the manifest (`Manifest.decode_verified`), lays its
-- files out as one sequence of pieces (`Layout::new`), and keeps one `Scheduler` over the piece
-- numbers of that layout. Peers send bitfields of the pieces that they hold (`pack_bits`,
-- `unpack_bits`), which go to `Scheduler::add_peer`. For each request a worker asks
-- `Scheduler::pick`, turns the piece into a byte range of a file with `Layout::locate`, and reports
-- with `complete` or `failed`, after `LocalShare::store_piece` has verified and stored the piece.
-- An encrypted share keeps its files in the format of storage.rs, and store.rs remembers shares,
-- downloads and their progress.
--
--  * Scheduler: crates/chorrent/src/scheduler.rs. The record `Scheduler` has the fields of the struct
--    (its map of peers is the association list of Common.HashMap), with one function per method:
--    new, is_done, add_peer, set_peer_has, remove_peer, complete, failed and their helpers in
--    Scheduler, and pick, step by step, in Scheduler.Pick. Invariant and Requests say when a
--    scheduler is well formed: the counters agree with the pieces, everything before the playhead is
--    done, every request is of a connected peer that asks once, no request list is empty, and the
--    availability of a piece is the number of peers that hold it. Drop, Remove, Peers, Bits, Failures
--    and Progress have the laws of the methods; Least, Scan, Chosen and Assign those of pick; Run
--    those of sequences of calls.
--  * Manifest: crates/chorrent/src/manifest.rs, the records, `name_problem` (Names), `encode`,
--    `decode_verified` and `validate` (Validate). Safe and Decode say what is accepted.
--  * Layout: `Layout` of manifest.rs and its methods; Locate relates them.
--  * Protocol: `pack_bits` and `unpack_bits` of protocol.rs (Bits), which Bitfield relates, and
--    `write_frame`, `read_frame` and `expect_frame` (Frames), which Exchange relates.
--  * Protocol.Messages: `Request` and `Response` of protocol.rs.
--  * Registry: `Registration` of registration.rs, `lookup` and `still_registered` of handler.rs, with
--    `LocalShare::authorized` of local.rs and `access_token` of share.rs; Listed has their laws. An
--    `Arc` is an address with the share that stands there; the record of a share has only the fields
--    that these functions read.
--  * Manifest.Folder and Manifest.Disk: `collect`, `portable_name`, `from_disk` and `single` of
--    manifest.rs. A folder on disk is a tree of entries; what `ingest` and the metadata say of a file
--    are parameters. Collected and Built say what is built.
--  * Share: `ShareCode` of share.rs with `merge`, `Display`, `FromStr` and `topic_for`; Merge and Text
--    have their laws. postcard, base64 and BLAKE3 are parameters.
--  * Storage: storage.rs. The module has the encrypted pieces, with `read_at` and `write_at`; Files has
--    `FileData` and `Handle` over a disk that maps paths to files; Import has `ImportingReader`. Slots,
--    Blocks and Writes show an encrypted file as a table of pieces, Modes relates strict and lenient
--    reads, Fresh is about new files, Imported about imports. `read_exact_at`, `write_all_at` and the
--    cipher are parameters; nonces and salts, which are random, are arguments.
--  * Store: store.rs. The module has the tables and sealed records, Format has `Store::open` and
--    `check_format`, Records the records of shares and downloads. A table is an association list, and a
--    call of the database always works. Revealed, Lookup, Kept, Forgotten, Progress and Reopened have
--    the laws.
--  * Local: local.rs, the pieces of a share on disk. `have_tx` is the list of what was sent. The
--    disk, the decoder of bao-tree and the outboard are parameters; Stored is about `store_piece`.
--    Resume has `restore_progress`, with the saved outboards of the files in their order, and
--    Gained and Resumed have its law.
--  * Download: download.rs, the engine as the state that its tasks share. A move is what a task does
--    while it holds that state: a peer joins or leaves, tells what it has, is asked, and answers. The
--    storing of a piece and the report to the scheduler are one move. Agreed, Started and History have
--    the invariant.
--  * Download.Fetch: `fetch_manifest`, `requests_for` and how long an attempt to reach a peer may take;
--    Download.Tracker: `PeerTracker`; Download.Finish: what `run` does after its loop, with the database.
--    Subscribed joins the frames of a seeder's subscription with the engine that reads them.
--  * Local.Prepare: `for_download`, `verify`, `read_range` and `outboard_snapshots` of local.rs, which
--    Started and Verified are about. A file is known by its number; what the disk and the hash tree do
--    is a parameter.
--  * Handler: `serve_stream` and `serve_piece` of handler.rs with `encode_piece`, `piece_len` and
--    `note_serve_failure` of local.rs, over a heap of shares. Changes and Reported are about the
--    reports of changed files, Answers about a request, Stored about an answer that the peer stores, and
--    Exchange about a whole download from one seeder. Subscription has `serve_subscription` as a step
--    relation with the tasks that mark pieces; Followed and Written have the invariant of its histories,
--    and CaughtUp what it means for the peer.
--  * Client: `finish_seed`, `start_seed`, `stop`, `remove` and `share_code` of client.rs over the
--    registry and the database. A path is the list of its components. Seeded and Removed have the laws.
--  * Limits: limits.rs, the token bucket, and Paced, what it lets through.
--  * Discovery: `keep` of discovery.rs, a step for each event of gossip and each tick of its timer, and
--    the choice of `predial`; Neighbours has the invariant.
--  * Common: Boolean tests, equality as an instance, lists with native indices, and the hash map.
--
-- A panic is `none`: an index out of range, an unsigned counter that would fall below zero, and
-- `unreachable!`. Errors of decoding are the values of `BadManifest`. Keys of peers are any type
-- with a test for equality. A text is the list of its code points, a hash and a message are lists of
-- bytes. BLAKE3, postcard, Unicode's lower case and the streams of iroh are parameters. Sizes, counts
-- of peers and piece numbers are natural numbers that are not bounded by `u64`, `u32` or `usize`;
-- only `total_size`, the length in a frame and the piece numbers that a subscription sends wrap.
--
-- Loops over lists are structural. The loop of `advance_playhead` runs on the number of pieces as
-- fuel, which is enough as it moves one piece ahead in each round and stops past the last: the
-- invariant says that it stops only at a piece that is not done. The loop of `remove_peer` over the
-- piece numbers runs once for each piece.
--
-- A moment is its number of nanoseconds. The products of floats in limits.rs and in `requests_for` are
-- taken without rounding.
--
-- Not modelled: the making of a share in local.rs over chunker.rs, loading a saved one and exporting a
-- file; the loops of a download that look for the manifest and that save its progress from time
-- to time; resuming a saved transfer, the builder of the client and the command line; how a connection
-- is accepted and joined to gossip; the wake-ups of idle tasks and the connections, as no property here
-- depends on them; failures of the database and of creating folders.
pub mod Common
pub mod Scheduler
pub mod Manifest
pub mod Layout
pub mod Protocol
pub mod Registry
pub mod Share
pub mod Storage
pub mod Store
pub mod Local
pub mod Download
pub mod Handler
pub mod Client
pub mod Limits
pub mod Discovery
