-- ===== src/Lib.antt =====
-- saas-foundation, the parts that decide: the mailed-link sign-in and the gate at the edge of the
-- vestibulum package, and of the foundation package the key-value stores, the rate limiters, the cache
-- of secrets, the network rules, the audit log, and the resolution of regions and tenants.
--
-- The sign-in (packages/vestibulum/src/lambda). Cognito runs three triggers for one session:
-- DefineAuthChallenge says whether to send a challenge, to issue tokens or to fail;
-- CreateAuthChallenge makes the challenge, stores the hashes of a link and a code, and mails them, or
-- makes a challenge that nobody can answer; VerifyAuthChallengeResponse compares an answer with the
-- hashes of its session, and consumes the stored row. They share a token table, a table of
-- counters, an allow-list, and a few parsers.
--   SignIn/Values     shared/signin.ts: the parsers, their bounds and the response floor
--   SignIn/Define     handlers/define-auth-challenge/index.ts: define_auth_challenge is the handler
--   SignIn/Counters   handlers/create-auth-challenge/rate-limit.ts and daily-cap.ts,
--                     handlers/auth-login/ip-rate-limit.ts, and checkAndIncrementRateLimit of
--                     handlers/pre-signup/index.ts;
--                     Counters/Bounds is about any order of calls of them
--   SignIn/AllowList  shared/allow-list.ts: eligible and the adapter for the user pool
--   SignIn/Bounce     handlers/bounce-handler/index.ts; Bounce/Covers is about the addresses marked
--   SignIn/Signout    handlers/auth-signout/index.ts and readCookie of shared/signin.ts; Signout/Revokes
--                     is about who is signed out
--   SignIn/PreSignup  handlers/pre-signup/index.ts: handle_signup is its handler
--   SignIn/Email      shared/normalize-email.ts: normalize_email
--   SignIn/Verify     handlers/verify-auth-challenge/index.ts: verify is the handler. Its guards are
--                     stages that end in a value or in a closed reason; an error that leaves the
--                     handler is a reason too. It takes the table twice, as its read finds it and as
--                     its delete finds it, since other requests may come between; Verify/Decides is
--                     about every outcome of it
--   SignIn/Decision   the environment and the decision of handlers/create-auth-challenge/index.ts
--   SignIn/Create     its reads and writes: issue is the function of that name;
--                     it passes on the counters, the token table and the mails sent
--   SignIn/Flow       the triggers together; Flow/SingleUse is about any order of their effects on
--                     the token table, and Flow/Redeems about a link from its mail to its redemption
-- Table is what they rely on of the table service: consistent reads, and atomic conditional writes, as
-- a record of operations and laws; a map meets the laws.
-- Hashes, random values, the clock, the environment and the answers of the other services are
-- arguments. A name of a variable that is unset, and an attribute that is missing, is none. A
-- dependency that throws is none or false. The decimal attributes of the tables are natural
-- numbers, as the handlers write them.
--
-- The gate at the edge (packages/vestibulum/src/lambda/shared-distribution), in front of the sites of
-- all tenants: each request needs a token of the tenant of its host.
--   Edge/Tenant       shared/extract-tenant-subdomain.ts, and normalizeHost and the wrapper of
--                     edge/check-auth.ts; Tenant/Hosts is about the hosts with a tenant
--   Edge/Cookies      extractTokenFromCookies of edge/responses.ts
--   Edge/Jwks         edge/jwks-cache.ts, and Jwks/Sources where its keys come from
--   Edge/Jwt          edge/verify-jwt.ts, around the token library, which is an argument
--   Edge/Gate         the handler of edge/check-auth.ts; Gate/Laws is what a passing request rests on
-- The lower case of a text, the token library and the keys that were fetched are arguments. The library
-- reads the clock as well; as an argument it answers for one moment.
--
-- Network rules (packages/foundation/src/net).
--   Net/Ipv4          the helpers of cidr.ts for IPv4 and the pattern of derive.ts; a 32-bit pattern is a
--                     natural number. Ipv4/Octets, Spelling and Prefix are about what is accepted
--   Net/Ipv6          the helpers of cidr.ts for IPv6, an address as its bytes; Ipv6/Filled and Prefix are
--                     about the bytes and the bits
--   Net/Reserved      rfc6890.ts
--   Net/Derive        derive.ts: the shape of an address, its anonymous form, the address of a request;
--                     Derive/Trust and Anonymous are about the latter two
-- The language's reading of a text as a number is an argument.
--
-- The audit log (packages/foundation/src/audit).
--   Audit/Log         audit-log.ts: build_event, emit_await and emit are its methods; Log/Persisted and
--                     Several are about the events that reach a store
--   Audit/Size        the limit on the metadata there, enforce_metadata_size; Size/Order, Shed and Kept are
--                     about what it leaves
--   Audit/Pii         pii-filter.ts
--   Audit/Ulid        ulid.ts; Ulid/Order is about the order of the identifiers
--   Audit/Retention   retention.ts
--   Audit/Multi       store.ts, the interface of a store, which the log takes as an argument, and
--                     multi-store.ts, which implements it over others
-- The schema library, the lower case of a text and the text of a number are arguments.
--
-- Regions (packages/foundation/src/region).
--   Region/Registry   registry.ts and the form of a region of schemas.ts and types.ts; Registry/Allowed is
--                     about what a registry accepts
--   Region/Detect     detect.ts; Detect/Chosen is about the regions that it gives
--   Region/Residency  residency.ts; Residency/Fresh is about what its cache answers with
--   Region/Config     config.ts
-- The upper and lower case of a text, the headers and the policy's answers are arguments.
--
-- Tenants (packages/foundation/src/tenant).
--   Tenant            the identifiers, of types/frozen/tenant.ts, a host without its port, and the
--                     interface of a resolver of resolver.ts, with the law of the bundled ones
--   Tenant/Subdomain  strategies/subdomain.ts; Subdomain/Exact and Hosts are about the hosts with a tenant
--   Tenant/CustomDomain  strategies/custom-domain.ts
--   Tenant/Composite  strategies/composite.ts, over resolvers as arguments; Composite/Trust is about the
--                     resolver that is believed
-- The lower case of a text and the lookup of a host are arguments.
--
-- The key-value store over DynamoDB (packages/foundation/src/kv/dynamo-kv-store.ts).
--   Kv/DynamoRows     the rows, the conditions on them, and get
--   Kv/DynamoStore    the other methods but increment and queryByIndex, over the table service's
--                     interface (Table). What others do to the table between two steps of a method is
--                     an argument; the tries of putIfAbsent are as many as are given.
--                     DynamoStore/Takeover is about a race, and Quiet about no race
--
-- The key-value store (packages/foundation/src/kv/memory-kv-store.ts).
--   Kv/MemoryStore    the class MemoryKvStore: an ordered map of rows, and one function for each
--                     method, with the clock as an argument; a promise is the result it resolves to
--   and below it      Versions, Locks, Freshness, Counters and Index, by what they are about
--
-- The rate limiters (packages/foundation/src/rate-limit).
--   RateLimit/Bucket  token-bucket.ts: the pure functions. An amount is a natural number of a unit
--                     that is a fraction of a token, so that a rate of any rational number of tokens
--                     in a second is a whole number of units in a millisecond
--   RateLimit/Memory  memory-limiter.ts: a bucket for each key in a map
--   RateLimit/Dynamo  dynamo-limiter.ts: a read, a computation and a conditional write, tried again
--                     at most twice; a turn says what each attempt sees and what other requests do
--                     before its write
-- The rounding of floating-point numbers is left out.
--
-- The cache of secrets (packages/foundation/src/secrets/cache.ts).
--   Secrets/Cache     the class SecretCache: the map in its order of use, and a heap for the buffers,
--                     which the cache shares with its callers and overwrites; the loop that evicts
--                     has a turn for each entry
--   and below it      Bounds, Buffers and Recency, by what they are about
--
-- Text has texts as lists of UTF-16 units, with the language's operations on them. Prelude has what
-- all parts share: Boolean tests, lists, ordered maps as the language has them,
-- texts and integers. All recursion is structural, so that no fuel is needed; the
-- attempts of the limiter count down from the two retries that the code allows. A digit string is read
-- as the number it spells, of any size.
--
-- Not modelled: log lines and metrics, the HTTP lambdas of the login, the constructs for the infrastructure, and
-- the clients of the services.
pub mod Prelude
pub mod Table
pub mod Text
pub mod Kv
pub mod Net
pub mod Region
pub mod Tenant
pub mod Audit
pub mod SignIn
pub mod Edge
pub mod RateLimit
pub mod Secrets
