-- ===== src/Lib.antt =====
-- Verification of wgroster, a web portal that keeps the roster of the machines of a WireGuard VPN:
-- users register machines, admins approve them with an address of a pool and a list of endpoints,
-- concentrators fetch their expected peers and upload status reports, and hourly sweeps expire
-- pending machines and take offboarded or dormant ones out of service.
--
-- Ipam models internal/ipam/ipam.go: the pool, Validate (validate), the broadcast address and
-- NextFree (next_free). The search of NextFree runs on fuel for every address of the pool and one
-- more round, as each round but the last moves to the next address of the pool.
-- Netip models what these packages call of Go's net/netip on addresses and prefixes as numbers; the
-- textual forms are a parameter, the record Netip, whose laws say that a printed address parses back
-- and that what parses is in range. Addresses carry no zones.
-- Wg.AllowedIps models internal/wg/allowed.go; Strings has the functions of package strings it calls.
--
-- Store models package store (internal/store). Store.Db is the schema of store.go as a record of
-- tables, lists of rows in the order of insertion; the queries of EndpointIDsForMachine,
-- EndpointLinks and PeersForEndpoint have no ORDER BY, and return their rows by primary key, from
-- whose index SQLite reads them. A statement fails only by a constraint, and a transaction returns
-- the new state or an error. Store.Models is models.go, Store.Machines and
-- Store.Service are machines.go, Store.Endpoints, Store.Owners, Store.Audit, Store.Status and
-- Store.Settings are endpoints.go, owners.go, audit.go, status.go and settings.go. Store.Invariant has
-- the well-formedness of a state and its preservation; Store.Approval, Store.Reviewed and the modules
-- below Store.Status are about approvals, owners' edits and reports.
--
-- Web models the hourly sweep of internal/web/maintenance.go over a Portal, the database with the
-- alerts sent (internal/web/alerts.go): Web.Maintenance is the offboarding check, with the answers of
-- the directory and the failing writes as arguments, Web.Dormancy the dormancy check and the sweep.
-- Config has the settings that these read (internal/config/config.go).
--
-- Web.Forms models the checks of internal/web/helpers.go on keys, names, hosts and lists.
-- Web.Handlers models the handlers behind the guards as functions from a request's form and the
-- database to an answer and the new database: Web.Handlers.Devices is machine_handlers.go,
-- Web.Handlers.Enroll enroll_handler.go, Web.Handlers.Machines and Web.Handlers.Endpoints the machine
-- and endpoint handlers of admin_handlers.go, Web.Handlers.Adoption peer_handler.go; Web.Peers is the
-- interface of the concentrators (api_handlers.go). Random tokens are arguments.
-- Web.Routes puts them together as the routes of server.go: an Event is a request, an upload, a sweep
-- or a login, serve its effect and run that of a history. Web.Routes.Writes is the abstract view, the
-- writes that an actor may make; the modules beside it take the handlers to these, and
-- the writes to the invariants of the database. About the server's Netip they use that a text which parses as an address has no
-- line break (ParsesOneLine), which holds for net/netip, as addresses carry no zones here.
-- Wg.Config models internal/wg/config.go, the configurations of clients and concentrators, and Wg.Dump
-- models internal/wg/dump.go, the parser of wg show dump.
-- Web.Conflicts models conflictAmong of internal/web/admin_handlers.go, which refuses endpoints that
-- route a common address.
-- Auth models the manager of sessions of internal/auth/session.go over the session table of
-- Store.Sessions (internal/store/sessions.go); the signature of a session id is the parameter sign, and
-- the random tokens are arguments. Web.Guard models the guards of internal/web/middleware.go over it.
--
-- A time is its Unix second, a natural number, and 0 is the zero time. Texts are lists of code points.
-- Not modelled: the handlers of logins, profiles, status pages and metrics, templates and rendering,
-- HTTP itself, the rate limiter, LDAP, the parsing of the configuration file, GeoIP; log lines;
-- failures of reads of the database; resolvers with an IPv6 zone, which validDNSList accepts. A negative counter of a dump reads as 0 here. The conflicts that
-- endpointEditConflict looks for come in the order of the machines, where the code has a map's order.
pub mod Prelude
pub mod Strings
pub mod Netip
pub mod Ipam
pub mod Wg
pub mod Store
pub mod Config
pub mod Auth
pub mod Web
pub mod Tests
