-- ===== src/Lib.antt =====
-- NNS, the hull of the Nockchain name service: a library about the Rust program under src/.
--
-- The program follows the chain. src/chain_follower.rs asks a node for blocks through
-- src/chain.rs, extracts claims on names from their transactions (src/claim_note.rs,
-- src/packed_blob.rs, src/payment.rs), and pokes the Hoon kernel with them (src/kernel.rs). Clients
-- look names up over HTTP (src/api.rs). A wallet checks an exported bundle offline
-- (src/bin/light_verify.rs with src/wallet_y4.rs and src/freshness.rs).
--
-- Files and their code, with the functions under their own names unless a file says otherwise:
--   Base and below   the parts of Rust's library that the program uses: strings, UTF-8, parsing,
--                    iterators, stable sorting, hash maps, `Result` with the texts of errors
--   Noun, Kernel     src/noun_access.rs and src/kernel.rs: pokes, effects, peeks, offline runs
--   Hex, State       src/state.rs; Hex also has the decoder of src/wallet_y4.rs
--   Rpc, Chain       the messages of the node, and src/chain.rs
--   Packed, Claim    src/packed_blob.rs and src/claim_note.rs
--   Payment          src/payment.rs
--   Follower         src/chain_follower.rs: Claims, Block and Apply (the application of a batch),
--                    Scan (`scan_once`), Tick (the loop of `spawn`, one round at a time), with the
--                    worlds that rounds lead to in Tick/Rounds
--   Formula          src/formula_nock.rs
--   Freshness        src/freshness.rs
--   Wallet           src/wallet_y4.rs
--   LightVerify      src/bin/light_verify.rs, with `process::exit` as a value and the lines of
--                    the report in Report
--   Api              the checks and the handlers of src/api.rs, with Kernel/Debug for the dump
--   Config           src/lib.rs: `apply_nns_config`, with its branches as functions, and in
--                    EarlyCli the stack size and the early command line
--   Startup          src/main.rs, up to the server and the follower that run
--   Samples, Tests   concrete functions in the place of libraries, and runs on small inputs
--
-- State is passed explicitly: a `World` holds the hull's telemetry, the kernel's state, the count
-- of scans and the readings of the clock, and a step returns a result and the world it leaves. A
-- function that uses `?` stops at the first error; an error text keeps its parts. A panic is an
-- error that no caller catches.
--
-- Code that is not in the repository is a parameter with laws: NounLib (nockvm), BeltLib
-- (nockchain_math), TxLib (nockchain_types), ZSetLib (the z-set), NoteLib (nockchain_client_rs),
-- NodeApi (the node), KernelApi (the compiled kernel). Samples has an instance of each.
--
-- A NodeApi is what a node answers in the course of one round: a request that is made again in that
-- round has the same answer, except a request for a transaction's details, whose answers may change
-- from attempt to attempt. From round to round the node may be any other, so that its tip, its
-- blocks and its failures change: Tick/Rounds takes one node for each round.
--
-- Numbers of 64 bits are natural numbers; where the code saturates or wraps, so does the model. The
-- only loop with a bound is the retry of a transaction's details, whose 24 attempts are the code's
-- own; all others follow the structure of a list or a noun, and decimal and hexadecimal digits in
-- messages have a fuel of 20 and 16, enough for 64 bits. Parallel tasks are joined in their order,
-- as the code joins them.
--
-- Not modelled: the logs, what goes to the standard error, the HTTP server and
-- JSON, the end of src/main.rs on a signal, and the Hoon program: what the follower relies on of its
-- cursor is the record KernelCursor in Follower/Apply/Cursor.
mod Base
pub mod Noun
pub mod Hex
pub mod Kernel
pub mod Rpc
pub mod Freshness
pub mod Payment
pub mod Wallet
pub mod LightVerify
pub mod Packed
pub mod Formula
pub mod State
pub mod Claim
pub mod Chain
pub mod Follower
pub mod Api
pub mod Config
pub mod Startup
pub mod Samples
mod Tests
