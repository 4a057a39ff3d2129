-- ===== src/Lib.antt =====
-- Verification of the multi-tenant cloud observability services: the control plane
-- (services/control-plane), which owns tenants, users and agents in PostgreSQL and mirrors them into
-- Keycloak and Grafana, and the query gateway (services/query-gateway), which stands between Grafana
-- and the stores of metrics and logs.
--
-- Files, and the code that they model:
-- - Base: the shared names. Base/Tests has the Boolean tests and the conditional, Base/Lists lists
--   over the native numbers, Base/Texts strings as lists of UTF-16 code units with JavaScript's
--   string methods, Base/Int integers, Base/Tables database tables as lists of rows.
-- - RateLimiter: services/control-plane/src/common/http/rate-limiter.ts (`RateLimiter`) and
--   modules/enrollments/exchange-rate-limiter.ts (`ExchangeRateLimiter`).
-- - Outbox: services/control-plane/src/sync/outbox.repository.ts (`OutboxRepository`), the statements
--   on the table event_outbox, and sync/mirror.ts. Outbox/Steps has the step relation of a system of
--   workers; Outbox/Worker is sync/outbox.worker.ts (`kick`, `drain`, `process`).
-- - Gateway: services/query-gateway/src. Gateway/Access is auth/jwt.strategy.ts (`validate`),
--   proxy/access.ts (`resolveQueryAccess`) and tenant/tenant.service.ts (`resolve`); Gateway/Filter
--   and Gateway/Search are proxy/opensearch-tenant.service.ts, on the JSON values of Gateway/Json;
--   Gateway/Percent and Gateway/SafePath are proxy/safe-path.ts; Gateway/Targets is
--   proxy/victoriametrics.controller.ts and proxy/opensearch.controller.ts up to the call of the proxy. Gateway/Endpoint
--   joins the two halves: the path that `enforce` decides on and that of the URL parser.
-- - Guards: services/control-plane/src/common/auth (`AuthGuard`, `bearerToken`, `TenantScopeGuard`) and
--   modules/users/users.policy.ts.
-- - Store: common/db and the tables of kubernetes/base/control/control-plane-db: the records of the rows,
--   the errors, and the actions of the services, which change a system of the database and a world
--   outside and succeed or throw; `transaction` is `DatabaseService.transaction`. Store/Keeps has the
--   lemmas on actions, Store/Announced those on the events of a transaction.
-- - Keycloak: integrations/keycloak, the representations and the record of the calls; Keycloak/Sample
--   has the inputs of the tests.
-- - Agents, Enrollments, SupportAccess, Tenants, Users: the modules of these names. Each has the
--   statements of its repository, and its Service the operations of the service; Agents/Mirror,
--   Tenants/Mirror and Users/Mirror are mirrors/keycloak.
-- - Collector: mirrors/keycloak/keycloak-gc.ts (`run`); Platform: modules/platform (`run`) and
--   sync/resync.service.ts (`run`).
-- - Upstream: services/control-plane/src/common/http/upstream-client.ts (`UpstreamClient.request`).
--
-- How the parts interact: a repository changes a tenant, a user or an agent and calls `enqueue` in the
-- same transaction; the worker claims due rows, calls the handler of the mirror, and reports with
-- `mark_done` or `mark_failed`. A request to the gateway is first bound to a tenant by
-- `resolve_query_access`; `resolve_downstream_path` then refuses a path that leaves its place, and
-- `enforce` passes, rewrites or refuses a query of logs.
--
-- Conventions. Time is a number of milliseconds, and every operation takes the clock as an
-- argument. A token of the rate limiter is 60000 units, so that its division is exact. A statement
-- of the database is atomic; what two transactions may do in between is an interleaving of steps.
-- The rows that another transaction has locked are an argument of `claim` and of `claim_expired`. The drain loop runs on
-- fuel, one unit for a round: each round handles a row that is due, and a row that was handled is
-- not due again before the shortest retry delay. Of the handlers only that of a tenant in Grafana
-- enqueues events itself; a table without events for it is what the fuel is counted for. The loop of `request` runs on fuel four: the first
-- sending, two retries and one refresh of the token. An HTTP exception is a value; its text is left
-- out. JSON.parse, JSON.stringify, the UTF-8 codec of Buffer and the test `Number(v) === 0` are the
-- fields of a record that the definitions take as an argument. The parsers give objects whose keys
-- differ; where a key stands twice, the first entry counts. Of the URL parser the path state is
-- modelled, and the encoding of one code unit and of the query are arguments; a base URL is an
-- origin, a target starts with a slash and has no white space at its ends and no tabs or line ends,
-- as the request targets of HTTP are.
--
-- An id is a number, and the id in a path is one or none. The systems outside are a world that a call
-- changes; a call may fail, and a transaction that fails puts the tables back, but not the sequences
-- and not the world. What a service is injected with is a record: the calls of Keycloak, the texts of
-- ids, SHA-256 and the lower case. The pages that the collector reads run on the fuel of MAX_PAGES, the
-- bound of the loop itself.
--
-- Not modelled. The outbox worker drops an event that has no handler, which mirrors.module.ts rules
-- out for every target of MIRROR_TARGETS; the step relation has no such step. The status report of
-- the outbox only reads. LISTEN and the timers of the worker are input and output of the runtime.
-- Of the gateway: the proxy, which streams bytes, and the verification of tokens, which is
-- passport-jwt's. Of the control plane: the
-- token verifier, the clients of Keycloak and Grafana, the mirrors of Grafana, the timers, the
-- configuration, and the declarations of the framework. The user interface, the deployment and the
-- scripts are not TypeScript.
pub mod Base
pub mod Agents
pub mod Collector
pub mod Enrollments
pub mod Gateway
pub mod Guards
pub mod Keycloak
pub mod Outbox
pub mod Platform
pub mod RateLimiter
pub mod Store
pub mod SupportAccess
pub mod Tenants
pub mod Upstream
pub mod Users
