-- ===== src/Lib.antt =====
-- A model of nodemux, a multiplexer that relays blockchain requests to the endpoints of a chain.
--
-- The program keeps a table of endpoints, each of one chain ("namespace/network"). A loop for each
-- endpoint asks it for its block head and publishes a status; a hub passes the statuses on to the
-- subscribers; the updater of the multiplexer takes them in, one at a time, and keeps for each
-- chain a table of weights and the highest block seen. A request for a chain is relayed to an
-- endpoint that the multiplexer chooses by a weighted draw among the endpoints that are healthy and
-- high enough. A rate limiter in front counts the calls of an account or an address in Redis.
--
-- Files and the code they model:
--   Chain.antt          core/chain.go: ParseChain, MustParseChain, ChainRef.String, ChainRef.Empty
--   Endpoint.antt       core/endpoint.go: NewEndpoint, Connect, FullUrl, Info, Available;
--                       core/jsonrpc_relayer.go: HasWebsocket; the types of core/types.go and
--                       core/config.go; in Endpoint/Headers.antt the headers of PipeRequest
--   EndpointSet.antt    core/endpoint_set.go: the weight table, WeightSearch and its sort.Search,
--                       resetWeights, resetMaxTipHeight
--   Multiplexer.antt    core/multiplexer.go: Add, Get, LoadFromConfig and the selections
--   Sync.antt           core/sync.go: updateStatus, RunUpdator; core/fetch.go: getBlockhead,
--                       UpdateBlock and the loop of syncEndpoint
--   System.antt         core/sync.go, core/fetch.go and core/memory_chain_hub.go at once: StartSync,
--                       StopSync, the loops, the hub and the updater, with their channels
--   Instance.antt       core/multiplexer.go: MultiplexerFromConfig and the one instance
--   Command.antt        server/command.go: serving a configuration, and taking in a new one
--   Clients.antt        core/redisutil.go
--   Hub.antt            core/memory_chain_hub.go, core/redis_chain_hub.go,
--                       core/redis_stream_chain_hub.go
--   Relay.antt          core/multiplexer.go: the Default* relays, BroadcastRPC, RequestCacheKeys
--   Web3.antt           chains/web3.go: the choice among the replies of a broadcast, the height of a
--                       request
--                       and in Web3/Subscription.antt the subscription of heads by websocket
--   Presence.antt       chains/presence_cache.go: which endpoint is asked for a transaction, and in
--                       Presence/Store.antt what the cache learns
--   Cache.antt          chains/jsonrpc_cache.go
--   Delegate.antt       DelegateRPC and GetBlockhead of chains/web3.go, chains/bitcoin.go and
--                       chains/solana.go
--   Factory.antt        core/delegator_factory.go
--   Chains.antt         chains/install.go, chains/namespaces.go, and the delegators of the other chains
--   Config.antt         core/config.go, server/config.go: the checks of a configuration
--   Ratelimit.antt      ratelimit/ratelimit.go; server/ratelimit.go; the limits of
--                       server/config.go
--   Server.antt         server/account.go, server/entrypoint.go, the relayers and relayHandler of
--                       server/http_server.go; in Server/Pairs.antt server/jsonrpcws_relayer.go
--   Common.antt         helpers: Go's int as a pair of signs over ℕ with wrap-around at 64 bits, maps
--                       as association lists, panics as values
--   Tests.antt          concrete endpoints, and the theorems applied to them
-- The modules below one of these hold its proofs, and are named for what they prove.
--
-- State and operations. The multiplexer is a record of a heap, which takes an address to an
-- endpoint, and of its two indexes, which hold addresses: so an endpoint that is changed is changed
-- in both, as with Go's pointers. An operation takes the state and returns the new one. A panic is
-- the value `panic` of `Outcome`, a missing key `none` of `Option`. What the Go runtime chooses,
-- the answers of rand.Intn and the order in which a loop visits a map, is an argument (`Runtime`),
-- and the theorems hold for each choice that Go allows (`IsGo`). The events of a hub and the
-- statuses of the updater are lists, in the order in which they are taken in; the sends into a
-- channel are a list as well. System.antt puts the parts together as a relation between states: a
-- step is what one of the goroutines does between two points at which it may wait, and a run takes
-- the steps in any order. A send needs room in its channel, so that one that would wait is no step.
--
-- Bounds and fuel. Sums on `int` wrap at 64 bits; a theorem that needs the weights to add up to an
-- `int` says so. `WeightSearch` gives its binary search the length of the table as fuel, which is
-- enough, since each round makes the range shorter; a relay has fuel for two attempts, and makes no
-- third. Everything else is by recursion on a list.
--
-- Code outside the repository is a parameter: the SHA-256 digest of a URL, the parsing of a
-- URL, the checks of TLS and authentication parts, the answers of the delegators and of the
-- calls to endpoints, the decoding of a hexadecimal number, the canonical form of a header's
-- name, the codec of results, the key of a request, and Redis, as a record of the commands that
-- a part uses. `IsRedis`, `IsCacheRedis`, `IsPresenceRedis` and `IsStreamRedis` say what they
-- do on a server without errors.
--
-- Not modelled: logs and Prometheus metrics, the HTTP requests to the endpoints and their
-- bodies, the table of paths and the admin calls of the HTTP server, the flags and the logger
-- of the command, a start with -nosync, decoding the configuration, and, in the runs of
-- System.antt, the endpoints whose heads come by websocket.
pub mod Cache
pub mod Chain
pub mod Chains
pub mod Clients
pub mod Command
pub mod Common
pub mod Config
pub mod Delegate
pub mod Endpoint
pub mod EndpointSet
pub mod Factory
pub mod Hub
pub mod Instance
pub mod Multiplexer
pub mod Presence
pub mod Ratelimit
pub mod Relay
pub mod Server
pub mod Sync
pub mod System
pub mod Tests
pub mod Web3
