-- ===== src/Lib.antt =====
-- The remote control path of the robot agent platform: how an operator takes over a vehicle, how the
-- vehicle decides which commands it obeys, what carries the messages in between, and who may ask.
--
-- An operator asks the control authority (server/fleet/durable_authority.go) for a lease. The authority
-- answers in one serializable transaction, numbers the lease with the vehicle's fencing token, and puts
-- a signed grant in the outbox (server/fleet/outbox.go), which a worker delivers to the gateway. The
-- safety arbiter on the vehicle (vehicle/safety-arbiter) checks the grant, then each command that names
-- the lease, and alone calls the actuator. A release or an emergency stop raises the token and sends a
-- signed revocation the same way. Messages from the vehicle pass a gate on their sequence numbers
-- (server/fleet/vehicle_registry.go); acknowledgements of navigation routes (server/fleet/nav_ack.go)
-- pass it in the transaction that moves the route.
--
-- The modules, and the files that they translate:
--   Wire        protocols/platform/v1/auth.go: ValidateEnvelope (`validate_envelope`), the tags and MACs
--               (`sign_envelope`, `verify_envelope_auth`, `sign_control_command_mac` and so on), over
--               the message structs of the generated envelope.pb.go and control.pb.go. `GoTime` is
--               time.Time with its monotonic reading and int64 durations that wrap or saturate.
--               `Signals` is ValidateSignalUpdate of capability_validation.go.
--   Arbiter     vehicle/safety-arbiter/arbiter.go and proto_kernel.go: NewArbiter (`new_arbiter`),
--               HandleProtoLease, HandleProtoCommand and Tick. Each takes the arbiter and returns it
--               with the decision and the calls of the actuator. What a handler does before it takes
--               the mutex is `admit_lease` and `admit_command`, what it does under it `apply_lease` and
--               `apply_command`; `Run` puts calls one after another.
--   Authority   server/fleet/durable_authority.go and the two guards of server/fleet/capabilities.go:
--               Request, Renew, Release, EmergencyStop and publishGrantTx over a record of tables.
--               A transaction that fails leaves the tables as they were.
--   Registry    server/fleet/vehicle_registry.go: AcceptInboundSequence and its Tx variant in `Cursor`,
--               CreateEnrollment, Activate, ValidateInbound and Revoke in `Enrollment`; `Calls` puts
--               them in sequence, each a transaction.
--   Navigation  server/fleet/nav.go and nav_ack.go: Submit, Cancel, markDispatched and
--               HandleNavigationAck for one route, as its row and its copy in memory. No lock spans the
--               two, so each operation is a function for each part that a lock or a transaction
--               spans, and `World` interleaves the parts of the calls that are under way.
--   Outbox      server/fleet/outbox.go: enqueueOutboxTx and its variants, claimOutbox and
--               markOutbox. The authority's grants go through it.
--   Capability  protocols/platform/v1/capability_validation.go: AssessGatewayCapabilities over the
--               compatibility matrix, and capabilityOutcome. `Persist` is PersistCapabilities and
--               RequireMonitoring of server/fleet/capabilities.go.
--   OpenApi     server/fleet/openapi.go: the signed interface for other platforms. `authenticate` with
--               the lock-out after failures (`locked`, `record_fail`), CreateKeyWithExpiry, UpdateKey
--               and Revoke, over a record of the maps.
--   Operator    server/fleet/auth.go: LoginPassword and FinishLogin, LoginPhone and SetPhone, captchas,
--               passwords, sessions in the cache and in the table auth_sessions, and the Middleware
--               before each request. `Steps` puts the operations one after another, and lets the
--               parts of a logout, of an expiry and of a restoration, between which the mutex is
--               released, be steps of their own; each other operation is one step.
--   Maps        server/fleet/map_publication.go: RequestMapPublication, RollbackMapPublication,
--               ApproveMapPublication, markMapPublicationDispatched and HandleMapPublicationAck over
--               the tables; an approval puts its command in the outbox. `Flow` puts them in order.
--   Common      shared helpers: Boolean tests, lists, integers, results, strings.Trim, Go maps.
--   Examples    a small world in which every theorem is applied.
--
-- Numbers: unsigned integers of the messages are natural numbers, conversions to int64 wrap
-- (`to_int64`), durations wrap or saturate as in Go, and times are integers of nanoseconds. Every
-- function terminates by recursion on its input; the loop over the blocks of pbkdf2SHA256 is on fuel, one
-- for each byte that is asked for. A Go map is an association list whose first entry of a key counts,
-- and a call reads the clock once.
--
-- Parameters: float64 with its comparisons (`Float`, and `Ieee` for what IEEE 754 says of them),
-- protobuf's Marshal and Unmarshal, HMAC-SHA256, SHA-256 and Ed25519 (`Codec`, and `Lawful` for the
-- length of a MAC), the actuator (`Actuator`), strconv, strings and net where a `Host` names them, clocks
-- and random identifiers.
--
-- Not modelled: the refusal of a sequence number of 2^63 and more by the BIGINT columns of the cursors,
-- and the purges of server/fleet/state_ext.go (cursors after 24 hours, the ledger after 15 minutes); the
-- interleaving of the parts of a login, of KillSessions and of RefreshSessions, and of a request that
-- finds its session in the cache; failures of PostgreSQL itself, which are one more return before a
-- commit; HTTP, WebSocket, MQTT and sockets, which are I/O around these operations; the files of maps,
-- point clouds and the operator's screen, which the control path does not read; code in Python and
-- TypeScript.
pub mod Common
pub mod Wire
pub mod Arbiter
pub mod Authority
pub mod Registry
pub mod Navigation
pub mod Outbox
pub mod Capability
pub mod OpenApi
pub mod Operator
pub mod Maps
mod Examples
