-- ===== src/Lib.antt =====
-- near-adapter: the adapter that lets a wallet framework scan the NEAR chain and send transfers.
--
-- The program's parts, the files that model them and the files of the repository:
--   * Transaction, Transaction/...: neartransaction/transaction.go. `Serialize` is `serialize`,
--     which returns the changed transaction; Reader is an independent description of the format.
--   * Bytes, Bytes/...: neartransaction/tx_utils.go, with hex and base64 of the Go library.
--   * Address, Regex: near/address_decode.go; the pattern is a regular expression matched by
--     derivatives, and Address/Grammar says which names it means.
--   * Model, Model/Unused, Wallet, Config: the structures of near/model.go, of the wallet
--     framework, and of near/config.go. Manager: near/manager.go, near/near.go and the
--     constructors of near/address_decode.go.
--   * Api: near/api.go. Db: near/blocksanner_db.go.
--   * Node, Node/...: the functions of near/blockscanner.go that ask the node; Node/Blocks is about
--     a whole block.
--   * Scanner/Extract, Scanner/Notify, Scanner/Scan, Scanner/Rescan, Scanner/Control: the rest of
--     near/blockscanner.go. Scanner/Channels is the same batch as a step relation, with every
--     order in which its goroutines can run, and Scanner/Channels/Refine ties the two together.
--     Scanner/Rescan/Task and Scanner/Rescan/Reorg are about whole runs of the task.
--   * Decoder/Keys, Create, Sign, Submit, Summary: near/tx_decode.go and txsigner/signer.go.
--     Decoder/Payment follows a payment from the built transaction to the text that is posted.
-- The scanner asks the node through Node, which calls Api; it stores through Db and tells the
-- observers. The decoder asks the scanner for balances, nonces and a block hash, and builds the
-- bytes with Transaction.
--
-- Scanner/Scan/View says what a platform has to give for the theorems of the scan loop: the node
-- serves the blocks of a chain, the database is a store with a head, and what was told of blocks is
-- a list. The tests fill it with a world of their own (Tests/Demo).
--
-- State. A method is an `Exec`: it takes the world outside and gives a result, an error or a panic,
-- and the world. The platform (Platform), the wallet (Decoder/Keys) and the libraries of the
-- serializer are records of operations that every definition takes as arguments. A uint64 wraps as
-- written by `add64` and `sub64`. Where the program changes `rawTx` through a pointer, the record is
-- returned, or it is a part of the state where it changes before a failure.
-- A map is a list of entries. Where the order in which `range` meets them can matter, it is a
-- parameter: of the world (`map_order`, `entry_order`, `observers`), or an argument.
--
-- Fuel. `scan_loop` takes one unit for each round; a chain that grows while it is scanned has no
-- bound, and its end `out_of_fuel` is told apart from those of the program. On a chain that stands
-- still one round for each block back, one for each block forward and one more are enough. The
-- digits of a number take the number itself as fuel, and the loops over slices the length of the
-- slice.
--
-- Not modelled: logging; the ticker of the base scanner that calls the task; contract_decoder.go,
-- which is commented out; registration with the framework; the JSON text of the structures.
pub mod Prelude
pub mod Go
pub mod Bytes
pub mod Transaction
pub mod Regex
pub mod Address
pub mod Exec
pub mod Model
pub mod Wallet
pub mod Platform
pub mod Config
pub mod Manager
pub mod Api
pub mod Db
pub mod Node
pub mod Scanner
pub mod Decoder
mod Tests
