-- ===== src/Lib.antt =====
-- ferry keeps folders in step between devices. Its store holds content-addressed blobs (chunks, tree
-- nodes, root manifests); two devices speak a framed protocol to exchange them; and the sync engine
-- compares each side's tree with the last agreed one, decides every path and plans the operations.
--
-- The parts, and the file of each:
--   Prelude: numbers, lists, byte strings, integers, results, maps (Prelude/*) shared by the rest.
--   Store/Format, Store/Reader: crates/ferry-store/src/format.rs, the container header, the writers
--     (put_u8 ... put_bytes append to `out`) and `Reader`, whose methods are parsers that move a cursor;
--     a chain of calls with `?` is a do block.
--   Store/Manifest: crates/ferry-store/src/manifest.rs. `validate_*`, `serialize_tree_node` and
--     `serialize_manifest` are in Store/Manifest and Store/Manifest/Root, `parse_tree_node` in
--     Store/Manifest/Parsing; the other children hold the theorems.
--   Store/Diff, Store/Diff/Walk: crates/ferry-store/src/diff.rs, the states that are compared and the walk
--     over two trees (diff_roots, diff_tree_ids, diff_nodes, compare_entry, sort_all).
--   Proto/Version, Proto/Frame, Proto/Error: the files of these names in crates/ferry-proto/src.
--   Proto/Wire, Proto/Handshake, Proto/Transfer: crates/ferry-proto/src/codec.rs; `Hello::parse` is
--     `hello_parse`, and likewise for the other messages. Proto/Advert holds its `IndexAdvert`, a table of
--     index rows with a flag behind it.
--   Store/Index: crates/ferry-store/src/index.rs, the rows of a pack index and their table (table_plain,
--     table_parse); Store/Locations: `LocationTable` of the same file, with merge, candidates and resolve.
--   Proto/Session: crates/ferry-proto/src/secure.rs, `SecureSession` after the handshake. A party is a tree
--     of the frames it sends and of what it does with each frame that it can receive; `Session W A` is such
--     code over the party's own state `W`. Run joins two parties by two queues and steps either of them,
--     in any order; Always speaks of one party whatever it receives, Meet of two that answer each other.
--   Proto/Engine: crates/ferry-proto/src/engine.rs. Offers is `exchange_offers` with its inner functions,
--     Stages `stage_needed` and `pull_needed`, Fetch `fetch_blobs` and `read_item_batches`, Serve
--     `serve_stage`, `serve_items` and `serve_packs`. The stores and blake3 are an interface, `Stores`, of
--     which no law is assumed, and a fetch from a peer runs against the loop that serves it.
--   Sync/Decide, Sync/Plan: crates/ferry-sync-engine/src/reconcile.rs. `decide` is the match on the two
--     changes, `act` the match on the decision, `plan_keys` the loop over the keys, `finish` what follows
--     it. The trees' chunk references and the change sets' views are arguments of `reconcile_views`.
--   Sync/Gate, Sync/Fold: `gate_plan`, `nests`, `fold_into_change_set` and the loop of `converge` around it,
--     crates/ferry-sync-engine/src/converge.rs.
--   Tests: the theorems at concrete data.
--
-- Representation: a `String` is its UTF-8 bytes, a byte is a number below 256, a machine integer keeps its
-- wrap-around written out, `usize` has 64 bits, an `i64` is an integer in range. A BTreeMap or BTreeSet is a
-- list in ascending order of its keys. A panic is `none`. The normalisation NFC is a parameter, and so is
-- the store's read of a blob in the walk.
--
-- Fuel: the walk over two trees takes fuel for its depth; the module Store/Diff/Walk/Fuel says how much is
-- enough. The loops of a session that have no limit of their own have fuel too: those of `exchange_offers`
-- one for each frame they wait for, which the theorems bound by the number of folders and of index rows,
-- and `serve_stage` one for each request. The loops with a limit in the source (batches in a round, rows of
-- an advert, rounds of a fetch) have that limit. Everything else is structural recursion.
--
-- Not modelled: files, sockets, the handshake and the ciphers (a session's frames are those that the
-- channel has opened; of the seal its length is kept, and sessions are taken to be encrypted, as they are
-- by default), hashing, the daemon and the user interfaces; the sealed container of an index; the nonce
-- counter; the pull of a folder with its packs, and the agreement behind it; the choice of a safe base and
-- the traversal that collects chunk references.
pub mod Prelude
pub mod Store
pub mod Proto
pub mod Sync
pub mod Tests
