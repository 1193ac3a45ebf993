-- ===== src/Lib.antt =====
-- Models of the core of the station's Go program (station/frame and station/app) and proofs about
-- them.
--
-- A station keeps actors, their sessions and tokens, their social collections and boxes, the nodes
-- that it knows, and logs. Each part is a state, here a record, and operations under a lock, here
-- functions from the state before to the result and the state after; a part that calls another
-- takes its functions or its interface. The files and the code:
--
--   Ring         station/frame/core/util/ring/buffer.go: Put, Get, Since, Stream and New of
--                the buffer with streaming readers. Ring/History is about the values,
--                Ring/Streams about the channels of the readers.
--   MemoryLog    station/frame/core/debug/log/memory/memory.go: Write and Read of a log on
--                such a buffer.
--   Session      station/frame/touch/auth/session.go: Session/Store is MemorySessionStore
--                (Set, Get, Delete, Cleanup), which fills the interface SessionStore;
--                Session/Manager is the SessionManager, over any SessionStore.
--   Auth         station/frame/touch/auth/jwt.go: JWTProvider. Auth/Service is AuthService of
--                station/frame/touch/auth/auth.go, and Auth/Middleware is
--                station/frame/touch/auth/middleware.go, which puts the provider and a
--                session manager before the handlers. Auth/Login is LoginWithSession and
--                CreateAuthMiddleware.
--   AiBox        station/app/subserver/ai-box: AiBox/Service is service/provider_service.go,
--                AiBox/Handlers handler.go and aibox.go. AiBox/Kept and AiBox/Pages are about
--                what the service keeps and lists.
--   Bootstrap    station/frame/core/plugin/native/subserver/bootstrap: Bootstrap/Connections is
--                host_notifee.go and store.go, Bootstrap/Lifecycle is bootstrap.go, and
--                Bootstrap/Configured is options.go and plugin.go. Bootstrap/Kept is about the rows.
--   Lifecycle    station/frame/core/plugin/native/node/native.go: Start, Stop and Run of a node.
--   Messages     station/frame/touch/model/db; Messages/Services is station/frame/touch/message, and
--                Messages/Handlers is station/frame/touch/message_handler.go. Messages/Listed,
--                Messages/Conversations and Messages/Epochs are about the services.
--   Server       station/frame/core/server: handlers. Server/Routes is options.go, Server/Base
--                server_base.go; Server/Hertz is station/frame/core/plugin/server/hertz/hertz.go and
--                Server/Native station/frame/core/plugin/native/server/native.go.
--   RuntimeOptions
--                station/frame/core/option/option.go: options and the context that they fill.
--   PackageFilter
--                station/frame/core/plugin/logger/logrus/pkg_filter.go: which packages may log.
--   Tables       what the code relies on of gorm: Tables/Lists is a table that is a list.
--   Registry     station/frame/core/registry/node_registry.go: the node storage in memory.
--                Registry/Handlers is station/frame/touch/peer/registry.go, the HTTP handlers
--                over it.
--   Social       station/frame/touch/model/actor: what follow.go (Following, Followers) and
--                liked.go (Liked) share, with those three as modules; Social/Box is the list
--                of activities of inbox.go and outbox.go, with Social/Inbox and
--                Social/Outbox.
--   Paging       the pages that liked.go, inbox.go, outbox.go and node_registry.go cut.
--   WebFinger    station/frame/touch/model/webfinger.go and the resource of
--                station/frame/touch/model/actor.go. WebFinger/Discovery is the handler and
--                the access control of station/frame/touch: wellknown_handler.go, router.go,
--                config.go and webfinger/discovery.go.
--   Endpoints    station/frame/touch/model/activitypub_endpoint.go: the registry of peers.
--   Identifiers  station/frame/core/util/id/id.go: NextID and NextIDS with their options.
--   NetworkId    station/frame/core/types/network.go: network ids and their text.
--   Mdns         station/frame/core/plugin/native/internal/mdns: option.go and mdns.go. Mdns/Records
--                is the TXT records of a node and the peer made of an entry; Mdns/Service is Start,
--                Stop, Watch, AdvertiseNode and one discovery.
--   Account      Account/Validation is station/frame/touch/util/validation.go and the checks of
--                station/frame/touch/model/actor.go, Account/ProfileChecks those of
--                station/frame/touch/model/profile.go; Account/Service is SignUp and Login of
--                station/frame/touch/actor/actor.go, and the ids of profile.go beside it;
--                Account/Profile is the rest of that file.
--   NativeRegistry
--                station/frame/core/plugin/native/registry. NativeRegistry/Bootstrap is the
--                bootstrap nodes that mDNS finds, NativeRegistry/Registering is register,
--                Deregister, the record of store.go and the TURN addresses,
--                NativeRegistry/Queries is Query and listPeers of native.go, and
--                NativeRegistry/Options is options.go and plugin.go.
--   PeerRoutes   station/frame/touch/peer_router.go, model/peer.go and peer/peer.go: addresses.
--                PeerRoutes/Sessions is TouchHiTo of peer/peer_msg.go and peer/session.go,
--                PeerRoutes/Nodes the handlers of nodes, over Registry.
--   Transport    station/frame/core/plugin/native. Transport/Framing is messages on a stream, and
--                Transport/Calls Dial and Listen of transport/transport.go with Call and Stream
--                of client/client.go.
--   LogLevels    station/frame/core/logger/level.go: the names of the levels.
--   Prelude      shared names; Prelude/Dict is a Go map, Prelude/Text the functions of the
--                packages strings and strconv that the code calls.
--
-- How the code is read. A map is an association list; the order of the list is the order in which
-- one range over the map visits it. A pointer that is only reached through its map is its value.
-- The readings of the clock, fresh ids and random bytes of a call are arguments of its function,
-- in the order in which the call takes them; times are natural numbers of nanoseconds, where 0 is
-- the zero time. An error is a value; a run-time panic is a value of its own (Paging.panic,
-- nil_pointer, out_of_range, crashed, panicked, Identifiers.Panic, NativeRegistry.Options.Panic).
-- Ring.put_value gives none where a send on a full channel blocks. Calls of several goroutines are
-- sequences of calls, since each holds a lock to its end; Session.Store.get, which lets its lock
-- go, is in two steps, find and finish.
--
-- Bounds. A channel of a stream holds 128 entries. An int has 64 bits: Paging.max_int is 2 ^ 63,
-- from which offset + limit wraps to a negative number, and Prelude/Text reads a number out of the
-- range of an int as an error. TotalItems is a uint of 64 bits, kept modulo 2 ^ 64, and a length
-- on a stream one of 32 bits, kept modulo 2 ^ 32; AiBox multiplies page numbers as an int32,
-- modulo 2 ^ 32. A decimal text is printed on fuel 20, which is enough since a number of 64 bits
-- has at most 20 digits. The loop of SignUp over fresh ids takes them from a list, and starves
-- when it has used them up.
--
-- Parameters. gorm's tables are Tables.Table with Tables.Laws, which Messages, Bootstrap and AiBox
-- use; encoding/json is AiBox.Json there, and libp2p Bootstrap/Lifecycle.Libp2p. The vendored
-- collection types are Social.Collections, with the laws that they document; gorm, bcrypt and the
-- JWT library are Auth.Platform; base32 and SHA-256 are NetworkId.Codec; sonyflake, the store and
-- random numbers are Identifiers.Sources; what hashicorp/mdns answers is an argument of
-- Mdns/Service; the database and bcrypt of a sign-up are Account/Service.Database and Bcrypt, with
-- the laws of Account/Service/Login; base64 and the count of runes are
-- Account/Validation.TextLibrary; libp2p and its DHT are NativeRegistry.Network,
-- Registering.Outside and Transport/Calls.Libp2p; encoding/json is Transport/Framing.HeaderCodec,
-- and the tables of addresses and profiles are PeerRoutes.AddressTable and
-- Account/Profile.ProfileTable; url.Parse is a test on the domain. Social/Tests, Auth/Tests,
-- NetworkId/Tests, Identifiers/Tests, WebFinger/Tests, Mdns/Tests, Account/Tests,
-- NativeRegistry/Tests and Transport/Tests give each of them by concrete functions.
--
-- Not modelled: the goroutines that copy log streams, call Cleanup each hour and dial the
-- bootstrap nodes, reading and writing of HTTP, JSON and databases, the TURN server, the handlers
-- of the bootstrap server and the host of the registry, the initialisation of a node and the
-- configuration loader, log output, and the copies of other projects' libraries in
-- station/frame/vendors and station/frame/core/pkg/cli.
pub mod Prelude
pub mod Account
pub mod AiBox
pub mod Auth
pub mod Bootstrap
pub mod Endpoints
pub mod Identifiers
pub mod Lifecycle
pub mod LogLevels
pub mod Mdns
pub mod MemoryLog
pub mod Messages
pub mod NativeRegistry
pub mod NetworkId
pub mod PackageFilter
pub mod Paging
pub mod PeerRoutes
pub mod Registry
pub mod Ring
pub mod RuntimeOptions
pub mod Server
pub mod Session
pub mod Social
pub mod Tables
pub mod Transport
pub mod WebFinger
