-- ===== src/Lib.antt =====
-- remotecmd-cli: a relay server, daemons that register with it, and clients that send them commands,
-- files and tunnels through it; with the client's configuration, activation keys, versions and errors.
--
-- The relay (relay.go, relay_client.go, relay_handler.go, relay_multi.go, relay_tunnel.go) is under
-- Relay. Connections are numbers. `Relay.State.Relay` is RelayServer with the store of connections
-- (relayClient), which all its maps point into, so that aliasing is kept. Each handler is a function from
-- a connection and a message to the next state:
--   Relay/Client     relay_client.go: a connection, its writes and its write queue
--   Relay/State      the maps of RelayServer, send, and what comes from outside (World)
--   Relay/Register   handleRegister
--   Relay/Forward    handleExecute, handleFileTransfer, handleDisconnect
--   Relay/Chunks     handleFileChunk
--   Relay/Results    handleStreamChunk, handleStreamEnd, handleResult, handleFileTransferResult
--   Relay/Multi      relay_multi.go: handleExecuteMulti and its timer
--   Relay/Pair       handlePairListen, handlePair
--   Relay/Tunnel     relay_tunnel.go
--   Relay/Serve      handleWS, unregister, and the events of the whole server (`step`)
-- The proofs are in Relay/Framing (write queue), Relay/Correlation and Relay/Refusals (commands),
-- Relay/Departure (unregister), Relay/Tunnels, Relay/Aggregate (the answer of a multi-target command),
-- Relay/Pairing, Relay/Authority (who may ask a daemon for something) and
-- Relay/Registry (who holds a name); Relay/Wires and Relay/Dispatch are lemmas that they share.
--
-- A file transfer runs from the client through the relay to the daemon:
--   Transfer/Chunk      filetransfer_chunk.go: chunkCount, chunkData; Transfer/Compress: tryCompress
--   Transfer/Sender     filetransfer_stream.go: sendFileFramesWithSize, sendFileStreaming
--   Transfer/Streams    sendFileParallel, and the choice of streams in filetransfer.go
--   Transfer/Disk       the files that the daemon writes (package os), with faults
--   Transfer/Receiver   daemon_filetransfer.go: reassembly, whole transfers, archives, results
--   Transfer/Arrival    daemon_filetransfer.go: chunks; the transfer frames of run in daemon.go
-- Transfer/Cutting has the laws of chunkData, Transfer/Sending what a sender writes where no write
-- fails, Transfer/Passage and Transfer/Handover how it passes the relay's handlers and the target's queue,
-- Transfer/Incoming and Transfer/Relayed what the daemon makes of it, Transfer/Delivery the whole way,
-- Transfer/Streaming and Transfer/Restating the comparison of the two senders, Transfer/Sharing the
-- chunks of parallel streams, Transfer/Splicing and Transfer/Parallel their writes at the daemon,
-- Transfer/Gaps what goes wrong.
-- Daemon/Commands and Daemon/Retry are the running of commands and the pairing retries of daemon.go,
-- with their proofs in Daemon/Answers and Daemon/Expiry; Daemon/Tunnels is tunnel_daemon.go, and
-- Daemon/TunnelData what its tunnels carry. Session is client_session.go, with its reachable states in
-- Session/Steps and the way of one request in Session/Waiting.
-- Client is client.go, the client that makes a connection for one request: Client/Exec a command on one
-- target with what is shown of it, Client/Multi on many. Its proofs are in Client/Replies,
-- Client/Exec/Output and Client/Multi/Outcome.
-- Mcp is mcp.go and mcp_tools.go: Mcp/Json the values and what is used of encoding/json, Mcp/Tools the
-- tools, which use sendToRelay, Mcp/Listing their list, Mcp/Server the requests and the loop over lines.
-- The proofs are in Mcp/Replies (which lines are answered), Mcp/Eras, Mcp/Stateless and Mcp/Shapes (the
-- two protocols), Mcp/Grants and Mcp/Access (what is asked of the relay, and for which requests) and
-- Mcp/Verdicts (rcmd_health).
-- Health is health.go with the part of daemonversion.go that uses its cache: Health/Ping the probing of
-- targets, which uses multiExecRaw, with proofs in Health/Ping/Verdicts and Health/Ping/Shared;
-- Health/Age durations as text, Health/Table the printing of an aligned table, with its proofs in
-- Health/Table/Columns and Health/Table/Layout, Health/Listing the table of targets.
-- LocalTunnel is tunnel.go, the client's end of a tunnel, with its proofs in LocalTunnel/Opening
-- and LocalTunnel/Loss.
-- Update is update.go: the verification of a downloaded release, with what it vouches for in
-- Update/Verified, and the swap on the disk, with the proofs in Update/Swap (for paths that differ),
-- Update/Paths and Update/Safety.
-- Protocol is protocol.go, Config is config.go, Version is version.go and daemonversion.go
-- (Version/Reported: what the `version` command prints), Keys is activation_keys.go, Errors is
-- exitcode.go and clierror.go, Processes is part of procupdate.go. Dict models Go's maps. Prelude has the shared names and lemmas, Examples the concrete runs.
-- Interleavings. A handler runs as one step; a step for the frames of different connections, timers and
-- writer goroutines comes in any order (`Event`). What two handlers do between their lock sections is
-- not interleaved. A write to the socket succeeds or fails as World says; a frame that a binary
-- file_chunk reads behind its header is an argument of the event, and is not taken off later events.
--
-- Bounds and fuel. The loop of chunkData runs on fuel, one unit for a byte, which is enough since each
-- round takes at least one byte; the loop of sendFileStreaming has one unit more, for the round that
-- finds the end. A parallel stream has as many units as the file has chunks, and each of its rounds goes
-- on to a later chunk. The loop of pairRetryLoop has 353 units, which is enough whatever its rounds
-- take, as long as the clock is not set back. All other loops are structural. The write queue holds 128 frames as in the source. Native
-- numbers do not wrap; where the source's int may wrap within the modelled range (chunkCount, the offset
-- of a chunk), the wrap-around is written out.
--
-- Not modelled: the WebSocket, JSON, HTTP, compression, archive, random, hash, process, socket and file
-- libraries (parameters of World, Outside, Libraries, System, Network, Link, Codec, Host, Probe or
-- Machine, or of the call), logging, pings and deadlines; the aliases of commands, the service commands
-- and the flags of the command line, which are input and output for the larger part. The length of a
-- client's timer is not modelled: what arrives before it fires is a parameter (`Inbox`). At the daemon
-- one handler runs at a time: a transfer in one message, which has a goroutine of its own, and the reads
-- of chunks are not interleaved; the two steps of a tunnel's opening are.
mod Prelude
pub mod Dict
pub mod Protocol
pub mod Relay
pub mod Transfer
pub mod Daemon
pub mod Session
pub mod Client
pub mod Mcp
pub mod Health
pub mod LocalTunnel
pub mod Update
pub mod Config
pub mod Version
pub mod Keys
pub mod Processes
pub mod Errors
pub mod Examples
