-- ===== src/Lib.antt =====
-- A model of the core of rspm: the authenticated account channel (crates/rspm/src/auth/ws), the
-- authenticated REST reads (auth), the submission of orders (clob/client.rs, clob/submission.rs),
-- the retry policy (retry.rs), the fee formula (fees.rs) and the position inventory
-- (clob/positions.rs).
--
-- The channel keeps one cell that the socket loop, the consumer of events and the recovery share.
-- The loop receives frames, reserves sequences for them in the cell, retains their bytes and
-- queues them; the consumer acknowledges what it has stored; the recovery proves a REST read,
-- waits for a PONG, and installs a catch-up by compare and set. Only then is the channel ready,
-- and any gap ends that. A session owns the loop's task with a permit of the process; where it is
-- dropped, the process takes both over. An engine that finds the channel ready activates the
-- submission controller, which mints attempts. The client submits an order under such an attempt
-- and under a gate, which names the one protocol authority that may submit; an outcome that cannot
-- be known closes the gate for that authority and all before it.
--
-- Files and the code that they model (paths below crates/rspm/src):
--   Common: the helpers that all share; `BTreeSet<u64>` and `BTreeMap<u64, V>` as ascending lists,
--     `Vec` and texts as lists.
--   Utils: utils/helpers.rs, the canonical texts, and the print of a number.
--   Ws.State: auth/ws/state.rs; of auth/balance.rs the credential identity and authority.
--   Ws.Frame: auth/ws/frame.rs (`decode_frame`, `capture_*`, `raw_evidence`, `into_sequenced_events`).
--   Ws.Events, Ws.Wire: auth/ws/events.rs and wire.rs; Wire.event_try_from fills the parameter
--     try_from of Frame.
--   Ws.StateCell: auth/ws/state_cell.rs; a method that takes `&self` maps the cell to the new one.
--     Marks has the `mark_*` methods, RawFrames and Ledger have state_cell/ledger.rs, Recovery has
--     state_cell/recovery.rs. Progress, Invariant, Durability, Coverage and Finalization have the
--     lemmas on single operations; Run has the histories of a cell; Delivery
--     and CatchUp have the laws of the ledgers and of a recovery.
--   Ws.Connection: auth/ws/connection.rs; one function per end of an await, Receive for the receipt
--     of a message, Steps for the runs of the loop between the steps of other tasks.
--   Ws.Retirement: auth/ws/retirement.rs, with retirement/failed.rs in Ledger; Histories has the
--     steps of the process.
--   Ws.Session: auth/ws/session.rs; Custody has the histories of a session and the process.
--   Auth: auth/error.rs and auth/types/endpoint.rs; Schema has auth/utils/schema.rs, Trades, Orders
--     and Transport have auth/trades.rs, orders.rs and client.rs, Balance has auth/balance.rs and
--     auth/utils/transport.rs.
--   Submission: clob/submission.rs; Revocation and Fence have its histories.
--   Clob: clob/client.rs. Errors classifies an SDK error, Gate is `ProtocolSubmissionGate` with its
--     histories, Posting is `sign_and_post_sdk` and `post_prepared_sdk`, Submit is
--     `retry_post_order`, Attempts is `submission_client` and the closures of the `submit_*` methods.
--   Retry: retry.rs. Fees: fees.rs.
--   Positions: clob/positions.rs; `fetch` over the responses to its requests.
--   The modules named Examples hold concrete runs.
--
-- Locks: an operation on the cell runs under the state mutex from its first read to its last
-- write, so a history is a sequence of whole operations, in any order and by any thread. A panic
-- of a thread that holds a mutex is a step that sets the mutex's poison flag. The receipt of one
-- message by the loop is one step as well. The snapshot that the code publishes after it has
-- released the mutex is published at the end of the operation. In the submission controller the
-- two halves of `poison_and_clear_active` are steps of their own. A call of a session and a
-- transfer of a task are one step each. In a submission other tasks change the gate and the
-- controller at each await, as functions that the theorems range over.
--
-- Numbers: a `u64` or `u32` counter is a native number with its checked addition written out; a
-- `usize` has 64 bits. Durations are counted in nanoseconds, texts are lists of bytes, and a
-- digest, an address or a UUID is read as one number.
--
-- Fuel: the loops of `acknowledge_durable` and `prepare_catch_up_finalization` take one element
-- from a set or a list per round; the fuel is one more than the elements. The fetch of positions
-- has fuel for 21 pages, which its largest offset bounds. The brackets of a path take two bytes a
-- round, so that its length is enough. A pass over the fallback ledger has fuel for its entries,
-- of which a round passes or takes one. A number has at most as many digits as its value plus one.
-- A round of `checked_pow` halves the exponent, which is the fuel. `retry_post_order` has fuel for
-- one attempt more than the policy allows.
--
-- Parameters: JSON, the parsers of addresses, hashes, integers and decimals, and the responses to
-- requests, of which nothing is assumed; the decimal type with its order, its checked operations
-- and its rounding, of which the fee theorem assumes that the products it names are exact; the
-- SHA-256 digest of a body; the contract configuration of the SDK; the SDK's versions, signature
-- and answer to a post; the start of the custodian thread and the end of an awaited task. What a
-- socket yields, whether a send or a close succeeds in time and what the clock says are inputs of
-- the steps.
--
-- Not modelled: HTTP, signatures and JSON; the vendored SDK under patches; the capacity of the
-- event channel (a frame is received only where there is room); a transport that panics in a
-- submission; the refresh of the protocol authority, the preparation of an order and the reads that
-- pass on to the SDK; the metadata of fees, settings, market data and domain types, which are
-- separate parts of the crate; floating-point prices; debug formats and accessors.
pub mod Common
pub mod Ws
pub mod Submission
pub mod Retry
pub mod Utils
pub mod Auth
pub mod Fees
pub mod Clob
pub mod Positions
