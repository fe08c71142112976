-- ===== src/Lib.antt =====
-- CQUT-Auth is an OpenID Connect provider for clients that are managed in projects. This
-- library models the state that it keeps without a database, and proves what the operations on
-- that state guarantee.
--
-- Parts and files. Paths are from the root of the repository.
-- - Projects/Access: src/projects/project-access.ts, who may do what in a project.
--   `assert_project_access` is assertProjectAccess, its thrown errors values of `Result`;
--   `can` and `capabilities` are the functions of these names. Access/Matrix holds the table
--   of permissions.
-- - Projects/Service: ProjectAccessService of the same file, the check with its lookups.
-- - Projects/Store: src/persistence/project.repository.ts, projects, members and audit
--   records. Each method is a function from store to store with the method's name in snake
--   case; `mutate_project` is the versioned mutation that five methods share, and
--   `authorize_write` is withMemoryProjectWrite up to its call of the mutation. Store/Mutations
--   has the versioned mutations, History the calls as a type and runs of them, Consistency and
--   Keeping and Owners the invariant and its preservation; Commits and Conflicts are about versions,
--   Authorization about the access check, Quota about the limit on projects. Listing has the
--   calls that list.
-- - Projects/Management: src/projects/project-management.service.ts, the requests that the
--   management interface serves on the project store. Each changing method is a function with
--   `_change` after its name, from what it reads to the mutation that it asks for, and `change`
--   carries that out. Management/Rights is about who may, Outcomes about what a request leaves.
-- - Body: src/management/request-body.ts, the checks of the fields of a request.
-- - Clients: src/persistence/oidc-client.repository.ts, clients with their revisions and
--   secrets. Records has the types, Queries the lookups, Registration, Revisions, Secrets and
--   Lifecycle the writes. A write is modelled twice over: `x_locked` is the function that the
--   method hands to the lock, and the method itself puts the access check of the project store
--   before it. Calls has the writes as a type; Keyed, Disabling, Standing, Quota and
--   Authorized are about them.
-- - RateLimit: src/persistence/rate-limit.service.ts, attempts per key and window; Checks is
--   consumeRateLimitChecks.
-- - Sessions: src/persistence/management-session.repository.ts and
--   src/management/management-session.service.ts.
-- - Artifacts: src/persistence/oidc-artifact.repository.ts, the codes, tokens, grants and
--   sessions of the OIDC provider; Artifacts/Logins has the pending logins of interactions with
--   their e-mail codes and the gate of a login. Gate has the calls as a type; Exclusion is about
--   the gate, Attempts about the codes, Replay about consumption, Answers about what lookups
--   answer, Revocation and Current about what is left of a client's artifacts (with
--   `authorization_state`, the function in src/persistence/persistence.ts that joins this store to
--   the clients), Lookup about what is found again, Lasting and Shape about what every record has,
--   Cleanup about the opportunistic cleanup.
-- - Adapter: src/oidc/adapter.ts and src/oidc/authorization-context.ts, the calls by which the
--   package oidc-provider reaches the two stores. What a request has seen of the generations of
--   clients is a `Context`; Requests is about a request that is overtaken by a revocation.
-- - UriCache: src/oidc/client-redirect-uri-cache.ts. `get` waits, so that its parts are steps:
--   `begin` up to the wait, `settle` after it, `serve` at its end. Fresh has sequences of them.
-- - Settings: src/persistence/app-settings.repository.ts, versioned settings with their log.
-- - Policy: src/runtime-policy.ts and src/email/email-settings.ts. Policy has the values and
--   their validation, Email the e-mail settings, Views what is shown and logged, Service the
--   calls of RuntimePolicyModule; Availability and History are about sequences of them.
-- - Contracts: src/persistence/contracts.ts and src/management/management-error.ts. Dict: the
--   JavaScript Map. Base: tests, lists and names that all parts share.
--
-- How they interact. The client store runs each write under the lock of the client's project,
-- after the project store's access check: `create_oidc_client` and the other methods take the
-- project store as an argument. The management service checks the access itself, and has its
-- mutation run on the store that it finds then. The artifact store asks the client store for the
-- standing of a client, and the adapter puts the provider's calls to both. The runtime policy is
-- kept in the settings store. The sessions, the rate limiter and the redirect URI cache stand by
-- themselves.
--
-- Choices. A time is a number of milliseconds; the source's ISO strings have one width and
-- compare as these numbers do. Times, drawn tokens, the hash, the replies of Redis and the
-- lookups of the identity store are arguments. Numbers are natural; no counter is bounded in
-- the source, and where the source subtracts, a negative result and zero lead to the same
-- branch. An asynchronous method is one step, since it runs under a lock or waits only for lookups
-- and, in the creation of a session, for two writes in turn that a store without a database does at
-- once (the redirect URI cache, whose `get` is of several steps, excepted); the one value that a
-- write of a client reads before it waits for the lock is its argument `snapshot`, and what a call
-- of the management service or of the runtime policy reads before its write is read in a state
-- `seen` that need not be the one of the write. A payload is
-- stored by value, though the source keeps the caller's object. The string functions of
-- JavaScript, the address checks of src/utils.ts, which are regular expressions, encryption and
-- the sending of mail are arguments. All loops are recursions on lists, so there is no fuel.
--
-- Not modelled: the Postgres branches, whose SQL runs in the database; the HTTP routes; the
-- client management service and the merged audit log of a project; the OIDC provider itself,
-- which is a package; cryptography, mail, and the front end.
pub mod Base
pub mod Dict
pub mod Contracts
pub mod Projects
pub mod Clients
pub mod RateLimit
pub mod Sessions
pub mod Adapter
pub mod Artifacts
pub mod UriCache
pub mod Body
pub mod Settings
pub mod Policy
