-- ===== src/Lib.antt =====
-- The verification library of the CBR provider: the parts of the program that decide what is
-- accepted, what is spent, what is sent and what is trusted again, as functions that run, with the
-- theorems that make them correct.
--
-- Encoding (crates/cbr-encoding/src): the JSON domain of the program. Encoding/Value, Errors and
-- Utf8 are value.rs, error.rs and the text functions of the standard library that the others use;
-- Encoding/Parse with its children is parse.rs (parse_with_depth, and one function for each method
-- of Parser); Encoding/Canonical is canonical.rs (to_canonical); Encoding/Base64, Digest and Intent
-- are base64.rs, digest.rs and intent.rs, SHA-256 being a parameter. Encoding/Domain says what a
-- value of the domain is. The reader runs on fuel: three units for each byte of input and three
-- more, since each byte pays for at most three calls.
--
-- Memo (crates/cbr-memory/src/evaluator.rs): the memo tables as one record (Memo/Store, set_input),
-- and one evaluation (Memo/Session: fetch, validate, changed_after, execute, evaluate), where a
-- registered function is the tree of its reads. The evaluation runs on fuel, with an error of its
-- own where that runs out; the program's recursion is bounded by its cycle check instead. Calls of
-- SQLite that fail are not modelled.
--
-- Clock (crates/cbr-provider/src/clock.rs): format_unix and unix_of, and epoch_seconds of
-- budget.rs. Reading and writing the clock's file is not modelled.
--
-- Budget (crates/cbr-provider/src/budget.rs): the refusals and figures (Budget/Refusals), the rows
-- of the table and their sums (Budget/Rows), and admission and settlement with what the process
-- keeps of the settlements that the store did not take (Budget/Ledger: admit, settle, and the
-- functions that they call). Whether the store takes a transaction is an argument. Budget/Stops has
-- the steps of a process on its ledger (Ops), for theorems on what comes later.
--
-- Outbox (crates/cbr-provider/src/outbox.rs): the state under the mutex and the writer thread. An
-- event is one critical section, and a list of events is an interleaving. Deadlines are arguments.
--
-- Frames (crates/cbr-provider/src/frames.rs): next_frame over a list of what its reads answer.
--
-- Work (crates/cbr-provider/src/work.rs): the pool, with the end of a thread as an event.
--
-- Effects (crates/cbr-provider/src/effects.rs): effect records as values of Encoding/Value, their
-- status and the life of their obligations.
--
-- Protocol (crates/cbr-provider/src/errors.rs): the errors that a message is answered with.
--
-- Envelope (crates/cbr-provider/src/envelope.rs, and Limits of config.rs): identifiers and dotted
-- names (Envelope/Names), the limits on a message (Envelope/Limits: check_limits), the closed
-- objects (Envelope/Members: check_members, check_subject, check_requires, check_payload), and
-- parse_command and parse_query (Envelope/Commands).
--
-- Grants (crates/cbr-provider/src/grants.rs): the records and their stored form (Grants/Records:
-- to_value, from_value), the decision (Grants/Decision: usable, permits, may_delegate_to,
-- may_read), and parse_issue (Grants/Issue). A chain of delegations is an indexed data type of
-- Grants/Delegation. Integers that the code keeps as i64 are integers without a bound; the one
-- subtraction on them is guarded from below.
--
-- Ids (crates/cbr-provider/src/ids.rs): encode and decode (Ids/Codec), and bounded with the
-- identifiers that are built by it (Ids/Bounded). A str is the list of its bytes there.
--
-- Memory (crates/cbr-memory/src): a text divided into chunks and terms (lexical.rs: Memory/Chunks,
-- Memory/Terms; Memory/Tiled says what a tiling is), the records and the keyset order of a search
-- (retrieval.rs: Memory/Retrieval), its fallback over a tree (Memory/Canonical: from_canonical) and
-- the search (Memory/Search: search, declares_its_gaps). What the tables of SQLite and the trees of
-- git answer, the comparison of scores (f64 that is not NaN) and the classes of characters are
-- parameters. A stable sort is by insertion.
--
-- How they interact: Effects stores its records as values of Encoding; Budget reads its instants
-- with Clock/Instants; Envelope and Grants read values of Encoding and refuse with Protocol; Grants
-- and Ids use the identifiers of Envelope/Names; Memo splits its keys with Encoding/Digest; the
-- frames that Frames hands over are what Encoding/Parse reads, and those that Outbox sends are
-- bytes of its writer. Prelude holds the helpers that they share: texts, lists and integers over
-- the native numbers, Option and Result chains. Examples runs the theorems at concrete inputs.
--
-- Not modelled: the dispatch of operations (crates/cbr-provider/src/provider.rs), the loop of a
-- session (session.rs, jsonrpc.rs), the subject store, context, knowledge and evidence records, the
-- preparation of packets (selection.rs, discovery.rs, projection.rs, derivation.rs, compiler.rs),
-- the build of the search index and the anchors of crates/cbr-memory, and input and output:
-- sockets, the keychain, model providers, the command line client.
pub mod Prelude
pub mod Encoding
pub mod Memo
pub mod Clock
pub mod Budget
pub mod Outbox
pub mod Frames
pub mod Work
pub mod Effects
pub mod Protocol
pub mod Envelope
pub mod Grants
pub mod Ids
pub mod Memory
pub mod Examples
