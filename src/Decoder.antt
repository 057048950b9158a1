-- ===== src/Decoder.antt =====
-- near/tx_decode.go and txsigner/signer.go: making, signing, checking and sending transactions.
pub mod Keys
pub mod Create
pub mod Summary
pub mod Sign
pub mod Submit
pub mod Payment
