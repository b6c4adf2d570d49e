-- ===== src/Lib.antt =====
-- The marbles game server (server/): rounds of a marble race that players bet on. A round commits to a
-- secret seed, takes participants, is raced by a headless Godot process and reveals the seed; a settlement
-- rule splits the pot; an audit store keeps the recording and the manifest; the game server (rgs) connects
-- wallets, sessions, bets on rounds and the runs of rounds.
--
-- The files, by the part of the program:
--   Prelude, Prelude/*: byte strings, Go maps as association lists, results and a monad for methods that
--     change an object and may fail, int as ℤ over native numbers, uint64 with its wrap-around.
--   Std, Std/*: what the code uses of Go's library: decimal and hex text, spaces and prefixes,
--     sorting, 64-bit FNV-1a.
--   Rtp: server/rtp/rtp.go. `settle` is `Settle`; Rtp/Settlement compares it with exact arithmetic.
--   Round: server/round/round.go. The record `Round` and one function for each method (`OpenBuyIn` is
--     `open_buy_in`, and so on); `run` is any sequence of calls. Round/Phases, Round/Invariant and
--     Round/Fairness have the proofs.
--   Replay: server/replay/store.go. `save`, `load`, `list` and `verify` on the entries of the root
--     directory (Replay/FileSystem); each call of the file system can fail.
--   Sim: server/sim/invoker.go. `run` is `Run`; the Godot process is a function on the files, and the calls of
--     the file system that fail are an input.
--   Rgs/Errors: the errors of server/rgs. Rgs/Session: server/rgs/session.go. Rgs/Wallet:
--     server/rgs/wallet.go, the interface and `MockWallet`; Rgs/Wallet/Laws is what the manager relies on in
--     a wallet, account by account, and Rgs/Wallet/Accounts fills it for `MockWallet`.
--   Rgs/Money, Rgs/Manager, Rgs/RoundBets, Rgs/RoundRun: server/rgs/manager.go. `place_session_bet` is
--     `PlaceBet`, `place_bet_on_round` is `PlaceBetOnRound`, `mint` is `GenerateRoundSpec`, and
--     `run_next_round` is `RunNextRound`, made of its stages in the order of the code.
--   Stream, Stream/*: server/stream. Message is the wire format of server/stream/stream.go, Live a round
--     with its subscribers (`WriteHeader`, `WriteTick`, `Done`, `Subscribe`, `Unsubscribe`), Hub the table of
--     live rounds, Ingest `handleConn` of server/stream/ingest.go, from `Hub.Open` to `Done`, over the hub.
--   Rgs/Api: server/rgs/api.go. One function for each handler, from the parts of a request that it reads to a
--     response and the world that it leaves; Rgs/Api/Responses has the bodies, and Rgs/Api/Routes the server
--     that gets any of the calls, with the goroutines that `runRound` starts.
--   Archive: server/api/http.go, the replay store over HTTP.
--   Stream/ActiveList, Stream/Socket: server/stream/ws.go, `ActiveListHandler` and `WSHandler`, whose loop takes
--     turns with the calls of writers and other clients.
--   Middleware, Middleware/*: server/middleware/middleware.go. Http is a request, a response writer and the
--     log; Wrappers has `RequestID`, `Logging` and `Recovery`, and Auth has `HMAC`.
--   Metrics, Metrics/Registry: server/metrics/metrics.go, `Counter` and `Histogram`, and `register` and
--     `Handler`.
--   Cmd/Replayd: server/cmd/replayd/main.go, `servePrecompressed` on a file system.
--   Cmd/Rgsd: server/cmd/rgsd/main.go, the wrappers around the wallet, the simulator and the handlers, and
--     the integers of the environment. Cmd/Roundd: server/cmd/roundd/main.go, rounds on a loop.
--
-- How they interact: `run_next_round` calls the functions of Round, Rtp, Replay and Rgs/Session, and takes the
-- simulator, the wallet, float64 arithmetic and SHA-256 as parameters. The handlers of Rgs/Api call the
-- functions of the manager, and the chain of Cmd/Rgsd stands around any handler. `run_one_round` of
-- Cmd/Roundd calls Round, Sim, Rtp and Replay on one disk. encoding/json, HMAC-SHA256, the %q verb of fmt and
-- the sorting of float64 are parameters too. The clock and crypto/rand are arguments. An error does not undo what was written
-- before it, so a method returns its state beside the result.
--
-- Recursion is structural, but for the loop over a connection: its fuel is the number of bytes, and each
-- message takes five or more. Indexes that are int in the code are ℤ where they can be
-- negative, and ℕ where the code makes them from lengths. A sequence of calls stands for the interleaving of
-- goroutines, since each method holds its lock while it touches the state; `PlaceBetOnRound` takes the lock
-- several times, and its last section is a step of its own, which gets the pending round that the first
-- section found as its place in the list, or none if it is no longer there.
--
-- Not modelled: `http.FileServer` behind server/cmd/replayd, server/cmd/streamtest, sockets, flags and
-- shutdown of the commands, and the Godot client (game). The texts of messages and errors are left out, but for those
-- that a theorem reads. Starting a process and its timeout are the parameter of Sim. Sim appends names to the path
-- of its directory without cleaning it again: its callers pass a clean one.
pub mod Prelude
pub mod Std
pub mod Rtp
pub mod Round
pub mod Replay
pub mod Archive
pub mod Sim
pub mod Rgs
pub mod Stream
pub mod Middleware
pub mod Metrics
pub mod Cmd
