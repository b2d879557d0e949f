-- ===== src/Lib.antt =====
-- A verification library for the signing server: the signalling hub through which administrators
-- view the screens of registered clients.
--
-- The program. A connection enters through serveWS, which takes a slot of its address, and becomes
-- a client's or an administrator's by its first messages. handleMessage of internal/hub serves one
-- message at a time per connection: it takes a token of the connection's bucket, and hands the
-- message to the handler of its type, which works on the state of the hub (connections, viewer
-- links, the registry of publishers) and on the database (internal/db). A connect asks
-- internal/ice for a transport plan. Agents also report events over HTTP, with a token of
-- internal/auth. Time limits and stale state are dealt with by loops in the background.
--
-- The files.
--   Prelude            shared names, Go maps and sets, integers, decidable equality
--   Text               strings by their bytes: Bytes (byte strings, UTF-8, base64), Case
--   Util               internal/hub/util.go, itoa
--   Config             internal/config/config.go: the settings, their reading and the flags
--   StreamWindow       internal/streamwindow/window.go: when team leads may view
--   RateLimit          internal/ratelimit/bucket.go: the token bucket of a connection
--   Auth               internal/auth: Ingest (tokens of agents), Password (stored forms)
--   Iputil             internal/iputil/office.go: the office networks
--   Auditproxy         internal/auditproxy/proxy.go
--   Db                 internal/db: Tables (rows), Transfers (transfer.go), Clients, Admins,
--                      Organizations and SignIn (store.go, admin_security.go), Grants (relay.go)
--   Hub.Types          internal/hub/hub.go: Conn, Hub, sendConn; a message is a list of fields
--   Hub.Links          linkViewer, unlinkViewer and the clean-ups of hub_viewers.go
--   Hub.Lifecycle      serveWS, disconnect, heartbeatLoop, pingLoop
--   Hub.World          the hub with its database; requireAdmin, handleAdminLogout
--   Hub.Dispatch       handleMessage: the table of handlers and the rate limit before it
--   Hub.SignIn         handleClientAuth
--   Hub.Accounts       handleAdminLogin, handleAdminRegister, maybeSendAdminIPStatus
--   Hub.Settings       organizations, team leads, features, the window of viewing
--   Hub.Legacy         the messages of older clients and the reports of paths
--   Hub.Roster         broadcastClientsListToAdmins and what it is made of
--   Hub.Transfer       internal/hub/transfer.go, handleAdminUpdateClientOrg
--   Hub.Transport      internal/hub/stream_transport.go, enrichTransportPlan
--   Hub.Sfu            internal/hub/sfu_handlers.go
--   Hub.Connect        handleAdminConnectToClient
--   Hub.Relay          relaySignaling, client-device-info, client-active-screen
--   Hub.Viewing        stop viewing, focus, remove, force update, the list of clients
--   Hub.Security       handleAdminResetPassword
--   Hub.Grants         handleRemoteAccess, handleStreamRelay
--   Hub.Audit          the handlers that pass on to the audit service
--   Hub.Ingest         internal/hub/http_ingest.go
--   Hub.Loops          New, Run, readLoop and one turn of each loop of hub.go
--   Ice.Pool           internal/ice/cloudflare_provider.go, realtime_pool.go
--   Ice.Plan           internal/ice/manager.go, policy.go, servers.go
--   Ice.Cloudflare     internal/ice/cloudflare.go, MintTurnCredentials, refresh
--   Examples           concrete states and runs
--
-- Conventions. A handler is a function from the world to the world; its body after requireAdmin is
-- a function of its own. A handler that may panic has an option of a server as its result. A
-- message that is sent is appended to the queue of its connection, and one to a connection that is
-- gone is dropped. A Go map is an association list, in whose order its loops run. The clock is an
-- argument, and a call of the Cloudflare service says how long it takes. A statement of the
-- database fails exactly while the database is down (`Store.up`), and a table is a list of rows.
-- The statements of a handler run with none of another connection between them; only for
-- CreateTransferRequest does Db.Transfers.Pending let those of several connections interleave. A number of a JSON message is a decimal
-- with a binary scale, and is cut to int64 as Go does it on amd64.
--
-- Parameters. What is not code of the repository is an argument, in handlers a field of `Env` or
-- `Services`: the zone database, the civil clock and the lower case of a character; HMAC, SHA-256,
-- scrypt.Key, the random bytes, json.Unmarshal and net.ParseIP; the environment variables; the
-- order of ORDER BY name and the text of a database error; the answers of the audit service and of
-- Cloudflare.
--
-- Bounds. Strings are cut, and lists bounded, where the source does it: 32 addresses and 8 screens
-- by a count of what is left. A number is printed on fuel that is the number plus one, which is
-- enough since each round divides by ten. All other recursion is structural.
--
-- Not modelled. The sockets, the pumps, the tickers and the HTTP server and clients are I/O, so
-- internal/ice/realtime_client.go is left out but for the names of tracks, and with it
-- MintSFUSessions. Opening the pool, logging, genSocketID and mustJSON, GetClientRowByDeviceID,
-- cmd and scripts are left out too. The schema of the database is not in the repository, so
-- refusals by its constraints (CONFLICT of UpsertClientAuth) are not modelled. Handlers run one after another: the interleaving
-- of their locks is not part of the model.
pub mod Prelude
pub mod StreamWindow
pub mod RateLimit
pub mod Text
pub mod Util
pub mod Db
pub mod Hub
pub mod Ice
pub mod Auth
pub mod Iputil
pub mod Auditproxy
pub mod Config
pub mod Examples
