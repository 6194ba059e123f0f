-- ===== src/Lib.antt =====
-- zknet-anon-rpc-demo: Ethereum JSON-RPC carried through a mixnet.
--
-- The parts, and how they interact. walletshield takes HTTP requests from a browser, and requests
-- that come over KPS streams, and hands each to a thin client of the Katzenpost mixnet, whose reply
-- it decodes and sends back. kps-monitor keeps one KPS connection to walletshield: it probes it with
-- a JSON-RPC call, keeps statistics of the probes, and serves them and a JSON-RPC proxy, /rpc, over
-- HTTP. kps-sendtx signs one legacy Ethereum transaction and broadcasts it through a JSON-RPC
-- endpoint, such as that /rpc. kps-client makes one JSON-RPC call over KPS. kps-relay stands in for
-- walletshield where there is no mixnet: it forwards KPS streams to an HTTP server.
-- The mixnet is run by the programs of katzenpost/. One of them, dirauth, is modelled: a few directory
-- authorities vote on the nodes and their parameters for the next epoch, reveal a shared random value
-- that they have committed to, certify what they have seen, and sign the document that they agree on.
--
-- The files. A module holds the definitions of a part and its children hold the proofs; Examples
-- holds tests and the theorems at concrete inputs.
--   Common              lists, Boolean tests, bytes, decimal numbers, chains of fallible steps (Try is
--                       Go's pair of a value and an error, Step a function body with early returns)
--   KpsSendtx.Rlp       kps-sendtx/main.go: rlpEncodeBytes, rlpEncodeUint, rlpEncodeList
--   KpsSendtx.Tx        privateKeyToAddress, signLegacyTx
--   KpsSendtx.Hex       encoding/hex and big.Int.SetString, as far as main and parseUint use them
--   KpsSendtx.Rpc       rpcClient.call, parseUint
--   KpsSendtx.Run       main: the requests it sends and how it ends
--   KpsMonitor.Http     kps-monitor/main.go: buildHTTPRequest
--   KpsMonitor.Rpc      doRPC and the handler of /rpc
--   KpsMonitor.Stats    rpcState: record and snapshot
--   KpsMonitor.Loop     the loop of main, as a function of the state and an event of the network:
--                       no address, a dial that fails, a dial that succeeds, a probe
--   KpsClient           kps-client/main.go: main
--   KpsRelay            kps-relay/main.go: handleConn
--   KpsRelay.Boot       its main: the start, /boot and /worker.js, and the loop over connections
--   Walletshield.Thin   walletshield/main.go: Server, sendRequest, reconnect, getThin
--   Walletshield.Handler  Server.Handler
--   Walletshield.Events the goroutine of main that watches the connection events
--   Walletshield.Kps    handleKPSConn
--   Walletshield.Boot   the KPS address of main, and what its /boot endpoint answers
--   Walletshield.Tasks  the goroutines that share the server, in any interleaving: a task is a request
--                       or a KPS stream, which runs in parts (getThin, sendRequest, reconnect)
--   Walletshield.Probes Server.SendTestProbes
--   Walletshield.Start  main: the flags, the start, and the handler of each path
--   Dirauth.Pki         katzenpost/authority/voting/server/state.go: the maps of state
--   Dirauth.Uploads     onVoteUpload, onRevealUpload, onCertUpload, onSigUpload; onAuthority of
--                       wire_handler.go, beside it
--   Dirauth.Authorization  descriptorAuthorizationError, replicaAuthorizationError
--   Dirauth.Tally       tallyVotes
--   Dirauth.Random      verifyCommits, computeSharedRandom
--   Dirauth.Commit      doCommit, reveal
--   Dirauth.Phases      fsm and its deadlines
--   Dirauth.Posts       wire_handler.go: onPostDescriptor, onPostReplicaDescriptor, onGetConsensus
--   Dirauth.Server      wireAuthenticator.IsPeerValid, onConn after the handshake, onClient, onMix,
--                       onReplica
--   Dirauth.Restore     restorePersistence
--   Dirauth.Prune       pruneDocuments, prunePersistedEpochs
--   Dirauth.Topology    generateRandomTopology
--   Dirauth.Layers      generateTopology, which keeps the layers of the document before, and
--                       generateFixedTopology
--   Dirauth.Envelope    cacheEnvelopeKeys, buildReplicaEnvelopeKeys
--   Dirauth.Authority   the state and the configuration of an authority; getDocument
--   Dirauth.Voting      getVote, getCertificate
--   Dirauth.Consensus   getMyConsensus, getThresholdConsensus, persistDocument
--   Dirauth.Turn        one call of fsm with its work; backgroundFetchConsensus
--   Dirauth.Startup     the tables of newState
--   Dirauth.Peers       sendCommandToPeerWithDeadline, doSendCommand, phaseDeadline, PhaseInfo
--   Dirauth.Descriptors onDescriptorUpload, onReplicaDescriptorUpload, documentForEpoch,
--                       hasEnoughDescriptors, verifyTopology
-- The state is passed on explicitly: Server is the record of walletshield, with the thin clients
-- named by numbers, and with the clients closed and the messages handed over as its trace; Monitor
-- is st, currentConn and the variables of the loop, with the connections closed and the pauses made
-- as its trace; RpcState is rpcState.
--
-- Parameters. Code that is not in the repository, or that is a copy of another project's, is an
-- argument: Crypto (Keccak-256, secp256k1), Reply (what the endpoint answers to kps-sendtx),
-- Exchange and World (a KPS stream and the decoders of the standard library and of CBOR), Client
-- (the HTTP client of kps-relay), Env (the thin client, by the number of the call, so that it may
-- answer each call in another way) and Decoders. The authority takes hashes, signatures and the
-- parsing of documents (Certs, Parsers, Signer, Detached), the order that sort.Slice gives to equal
-- digests (sort_slice), the encodings of descriptors and of signed uploads (Codec), the keys of the
-- configuration (Files), the pinned nodes (Pinned) and
-- commits and reveals (SharedRandom) as arguments; Library of Dirauth.Posts is what the posts need of
-- these, Library of Dirauth.Authority what the documents need, and Env of Dirauth.Server is these,
-- the configuration and the time. Network of Dirauth.Peers is a peer over the time. Floats is the
-- two float64 expressions of snapshot that are not whole numbers.
--
-- Numbers. A uint64 that the source computes with wraps by `% 2 ^ 64`. The counters, lengths and
-- times, which no run brings near 2^63, are natural numbers.
--
-- The hash of a key, and the digest of a reveal, are the numbers that they write in base 256, which
-- orders them as Go orders strings of one length. A Go map is the list of its entries, in the order in
-- which a range over it goes, and no theorem assumes that two ranges go in one order.
--
-- Loops and fuel. A loop over a list is a recursion on it. The division loops of rlpEncodeUint and of
-- decimal printing recurse on the accessibility of <, so that they have no bound to run out of.
-- send_test_probes takes the number of probes as its fuel, and attempts the retries that the
-- configuration allows, as the loops of the source do. parse_headers, of the reader of HTTP
-- requests that stands as a specification, takes the number of bytes, since each line consumes some.
--
-- Sharing. Where the source keeps one document in two maps, each map of Authority has its own copy: a
-- signature that is added to our consensus after it is published would be in the source's other map
-- too. The maps of commits and reveals in our own certificate are those of the state, as in the source:
-- own_maps says of which epochs, and read_certificates puts them in where certificates are read.
--
-- Not modelled: the rest of katzenpost/, a vendored copy of another project, whose libraries are
-- the parameters; of dirauth, the link layer and the start and end of the process; the dashboard, the
-- browser worker and the Solidity contract, which are in other languages; the scripts and the
-- configuration; and log lines. A sendRequest is one part of a task: while it waits for its reply, no
-- other goroutine changes what it does, but for the closing of its client, which Env may answer
-- with an error. The streams of kps-relay, which run at once in the source and share no
-- state, are taken one after the other, in the order in which their requests are sent.
pub mod Common
pub mod KpsSendtx
pub mod KpsMonitor
pub mod KpsClient
pub mod KpsRelay
pub mod Walletshield
pub mod Dirauth
