-- ===== src/Lib.antt =====
-- The Go mining pool go-pool: its master, which records shares and pays blocks, and the slaves, which
-- serve the miners and report to the master.
--
-- A slave caches the shares of its miners (slave/slaveQueue.go) and sends them every ten seconds as
-- packets (slave/slaveClient.go, serializer/). A packet goes through an encrypted frame
-- (cmd/master/crypto.go) to the master's handler (cmd/master/handler.go), which records shares and
-- blocks in a SQLite ledger (pkg/ledger/). The master pays a block in two ways: by the PPLNS window
-- thirty seconds after the slave reports it (cmd/master/pplns.go, master.go), and by the wallet's
-- incoming transfers (cmd/master/updater.go), whose payments cmd/master/withdraw.go sends.
--
-- The files:
--   Base           numbers, lists, bytes, association lists for Go maps, calls that may panic
--   Float          float64 arithmetic, as an interface; a theorem that needs a law of it names the law
--   Serializer     serializer/serializer.go and deserializer.go: `Serializer`, `Deserializer`; a method
--                  is a function to the new state, `AddUvarint` is `add_uvarint`, `ReadUvarint` is
--                  `read_uvarint`. Encoding has the functions of encoding/binary, by their documentation
--   Database       database/database.go: `Share.Serialize` is `serialize_share`, and so on
--   Template       template/template.go: difficulties and targets
--   Channel        cmd/master/crypto.go, the frames of slave/slaveClient.go and of `HandleSlave`; the
--                  cipher is the interface `Aead`
--   Address        address/addr.go and base58.go; Keccak-256 is an argument
--   Slave          slave/slaveQueue.go and the `Send` functions of slave/slaveClient.go
--   Penalty        cmd/slave/penalty.go: `RecordShare` is `record_share`; Bans and Events have its theorems
--   Ledger         pkg/ledger/ledger.go, models.go and schema.sql. Store has the rows, the tables and the
--                  connection; Blocks, Shares, Payments and Balances have the calls, Reports, Miners and
--                  Charts those of the statistics. Reads is about calls that change nothing
--   Master         cmd/master: Packets and Handler are handler.go, blockfound.go and the share and block
--                  functions of master.go; Pplns is pplns.go and `DistributeBlockRewardPPLNS`; Transfers
--                  and Updater are updater.go; Withdraw is withdraw.go; Seconds has the rest of pplns.go and
--                  pplns_diff.go; Stats is stats.go and stats_collector.go; Api is api.go, with the
--                  requests in Api/Requests. The other files below have their theorems
--   Miner          the miners of a slave. Login is what `HandleConnection` of cmd/slave/conn.go makes of a
--                  login, Checks and Submit what it makes of a submit, on the state of State; Jobs is
--                  cmd/slave/nicehash.go and `GetJob`, Notify the jobs that a connection is sent (conn.go,
--                  `OnNewBlock` of slave.go), Refresher the rounds of `Refresher` there; Queue is
--                  cmd/slave/verify_queue.go, with its monitor in Monitor; Conns is the list of
--                  stratum/server.go; Text is what they use of strings, strconv and encoding/hex, and
--                  `IsHex` of util/util.go. The other files below have their theorems
--   DaemonPool     cmd/slave/daemon_pool.go: `Get` is `get`, `ExecuteWithRetry` is `execute_with_retry`
--   P2Pool         p2pool/client.go and p2client.go: `Connect` is `connect`, `dispatchJobs` is `dispatch_jobs`
--   Tests          the theorems at concrete inputs
--
-- Numbers are natural numbers, with the wrap-around of uint32 and uint64 written out. A Go map is an
-- association list in the order of the first writes, where Go leaves the order open. A call of the
-- ledger is a function on a `Db`: the tables, the one connection of `SetMaxOpenConns(1)`, and a list
-- that says which of the coming calls fail. It returns or it is `blocked`, which is a wait for the
-- connection that never ends. What a statement does is what its SQL text and the constraints of
-- schema.sql say; a database that `CREATE TABLE IF NOT EXISTS` finds with other tables is a `Schema`.
-- The time of a call is an argument, one for all calls of a handler.
--
-- A handler of a miner runs alone, from the request to the reply; what it leaves locked is part of the
-- state, and a handler that needs it ends in `waits`. So does one that the P2Pool does not answer, or
-- that finds no room for the signal of a block: both are fields of `Daemon`. The workers of the
-- verification queue interleave at its transactions, as steps of a relation. A `panic` of a Go call
-- ends the process.
--
-- What the other callers of a daemon pool make of it between two attempts is an argument of
-- `attempts`. How many values are taken from the two channels of `dispatchJobs` is one of `dispatch`.
--
-- Fuel: `attempts` has the number of attempts that the source has, one more than there are connections;
-- `uvarint_bytes` has nine rounds before the last byte, enough for a uint64; `le_digits` has a round
-- for each byte; `pad_zeros` has four; `receive_all` has the length of the stream and one, since each
-- frame takes bytes. All other loops go over a list or a count.
--
-- Not modelled: goroutines beyond that, sleeps, logs and timeouts; HTTP headers, sockets and
-- certificates; the start-up code of cmd/; config/, logger/, the rest of util/, tools/. The wallet, the
-- daemon and the P2Pool are arguments: the answer of a call, or a function. JSON is left out: requests and rows are the records that it stands for,
-- but for an answer of the API with an infinite number, which has no body.
pub mod Base
pub mod Float
pub mod Serializer
pub mod Database
pub mod Template
pub mod Channel
pub mod Address
pub mod Slave
pub mod Penalty
pub mod Ledger
pub mod Master
pub mod Miner
pub mod DaemonPool
pub mod P2Pool
pub mod Tests
