-- ===== src/Clob.antt =====
-- clob/client.rs with clob/error.rs: the submission of an order. The gate of the protocol authority,
-- the classification of errors, one attempt and the loop over attempts.
pub mod Errors
pub mod Gate
pub mod Posting
pub mod Submit
pub mod Attempts
