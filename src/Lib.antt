-- ===== src/Lib.antt =====
-- account-indexer: a companion of a geth node that indexes the transactions of every account in
-- LevelDB, so that they can be asked for by address and time.
--
-- The indexer (indexer/indexer.go) receives blocks from the chain, makes the records of a block
-- (CreateIndexData) and hands them to the index repository (repository/keyvalue/index_repo.go), which
-- writes them through the byte marshaller (repository/keyvalue/marshal/byte_marshaller.go) to two
-- key-value stores (repository/keyvalue/dao), one of addresses and one of recent blocks. A block that
-- comes again, after a reorganisation of the chain, is undone by what its stored record names.
--
-- Files:
--   Common      tests, lists, outcomes (a value, a panic, a loop that does not end), calls that change
--               a state, machine integers, association lists, permutations
--   Go          math/big: decimal text and big-endian bytes, with their round trips; strings
--   Geth        hexutil and the lengths of addresses and hashes: a parameter, with documented laws
--   Types       core/types
--   DateTime    common/datetime.go; Text is StrToTime, Parse and Format what it and the server use of time
--   Marshal     byte_marshaller.go: Address, Block and Batch, each with its round trips; Text is
--               string_marshaller.go
--   Dao         dao.go; Order is what a store holds, Sorted that it is in the order of the keys, Iterate the
--               loops of leveldb_dao.go, Contract what a store promises; Leveldb and Memdb are the two stores over goleveldb, a parameter
--   Repo        index_repo.go: Store is the writing half, Query the searches by address and time, Blocks
--               the operations on the block database; Batches is batch_repo.go
--   Indexer     indexer.go: Data is CreateIndexData, Process is ProcessBlock, Batches is GetInitBatches
--               and the block numbers that batchIndex asks for, BatchIndex is batchIndex
--               Restart is getBatches, Rerun FetchAndProcess, Realtime realtimeIndex, and Start index and
--               IpcUpdated, up to the goroutines that they start; Interleave is the calls of
--               ProcessBlock by these goroutines, in any order
--   Fetcher     fetcher/fetch.go, over a node that is a parameter: Dial is NewChainFetch and IpcUpdated,
--               Realtime RealtimeFetch
--   Ipc         service/ipc_manager.go
--   Watcher     watcher: the cleaning of the block database, and when the node is to be changed
--   Config      common/config
--   Command     cmd/indexer/main.go: the flags, setConfig, the start and logInit
--   Http        http: Types is types/response.go, Params the parameters of a request, Accounts and Admin
--               the handlers, Extra and Batches their loops, Server the server's own state and its routes
--   Tests       a hex codec and databases in memory, and the theorems at concrete blocks
--
-- Text and byte slices are lists of numbers. A *big.Int is an integer, and an option of one where the
-- code may leave it nil. A call that may panic returns an outcome; a call that changes a database
-- returns its state too, after a panic as well. A store is a record of operations over a type of
-- states. The capacity of a slice is taken as its length, as CopyKeyValue makes it, so that a cut past
-- the length panics. An iterator of goleveldb is the list of entries that its moves show. The clock and the order
-- in which the runtime goes through a map are arguments.
--
-- The loop of HandleReorg is run on fuel: 256 rounds are enough for the sequences that it ends on. The
-- loop of batchIndex is run on fuel, and two rounds more than the number of the latest block are
-- enough; what FetchABlock answers in each round is an argument, and where it is an error, FetchABlock
-- has switched the IPC. All other loops
-- are structural recursion.
--
-- A handler of the server goes from the responses written before it to those after it. A float64 flag
-- stands as the int64 that time.Duration makes of it. ToUpper and ToLower are those of ASCII texts. The
-- offsets of the local time zone are an argument.
--
-- Not modelled: the log, the application that cli makes of the flags, the signal handler, gin's routing
-- and passwords, the printing of JSON, and the interleaving of goroutines, except for the calls
-- of ProcessBlock by those of index, each of which is one step: other operations stand one after
-- another, and what a channel or a ticker delivers is an argument. The waits of 30 seconds are left
-- out.
pub mod Common
pub mod Go
pub mod Geth
pub mod Types
pub mod DateTime
pub mod Marshal
pub mod Dao
pub mod Repo
pub mod Indexer
pub mod Tests
pub mod Ipc
pub mod Watcher
pub mod Config
pub mod Command
pub mod Http
pub mod Fetcher
