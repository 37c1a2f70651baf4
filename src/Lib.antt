-- ===== src/Lib.antt =====
-- A model of oauth-lab, an OAuth 2.1 and OpenID Connect authorization server, and proofs about it.
--
-- The program is hexagonal. The domain (oauth_lab/domain under the source root) holds entities and
-- value objects. The services of oauth_lab/application answer the endpoints: `/authorize` shows a
-- consent page, `/consent` stores an authorization code, `/device_authorization` and the device
-- pages keep device codes, and `/token` authenticates a client and runs one of six grants, which
-- consume codes and rotate refresh tokens. The adapters of oauth_lab/adapter store, sign and read
-- the clock. The source root is the folder src of the repository.
--
-- The files:
--   * Domain: src/oauth_lab/domain/model and domain/service. `Scope`, `ClientId`, `PKCEChallenge`
--     and `TrustedAssertionIssuer` are functions that may raise (`scope`, `client_id`,
--     `pkce_challenge`, `trusted_issuer`); an entity is a record of the same name.
--   * Memory: src/oauth_lab/adapter/outbound/persistence/memory, a method of a class being a method
--     of the store. Dict is Python's `dict`, in the order of insertion.
--   * World: the repositories together with the number of times that the clock and the random source have
--     been read. World/Env holds the settings and what comes from outside, as functions.
--     World/Issuers is adapter/outbound/time, random and the token issuers of crypto.
--   * ClientAuth: application/service/client_auth. Jwt: the verifiers of adapter/outbound/crypto.
--   * Token and Grant: application/service/grant; `execute` is the `execute` of the strategy.
--   * Service: the other services of application/service; a function bears the name of the use case.
--   * System: the server as a machine. An event is a request to one of the services, `handle` the
--     world that it leaves, and `run` the world after a list of events.
--   * Sql: adapter/outbound/persistence/sqlalchemy and orm. A table is the list of its rows, a
--     statement a function on it, and a method one transaction. What the driver makes of an
--     aware datetime is a parameter (`Bind`), and what is read from a row has naive ones (`AsRead`).
--     Sql/Tables relates a table to the dictionary of the in-memory repository, and each repository
--     has a module of what it refines.
--   * Http, Rest and Web: adapter/inbound/rest and web. A response is a status, headers and a body; a
--     page is the name of its template with the arguments. Http/Url is urllib.parse's quoting with
--     web/authorization_response.py, and Http itself rest/exception_handler.py.
--   * Config: config.py, the checks and derived settings of container.py, and cli/seed_command.py.
--     Service/DemoData has the data that Service/SeedDemoData stores.
--     App: the routes of main.py. App/Events says which entry points of System a request reaches, and
--     App/Runs, App/SingleUse and App/ReadOnly carry what holds of the entry points over to requests.
--   * Flow: methods that change a store and may raise, and what they keep. Prelude: shared names,
--     texts and lists. Tests: a small server on which the theorems are run.
--
-- A method is a function of the world; it returns or raises, and what it wrote before a raise stays
-- written. An aware `datetime` is a number of microseconds, an integer of Python is unbounded, and a text
-- is a list of code points. The loops run over lists or a fixed number of draws, so there is no
-- fuel.
--
-- Parameters: base64 and percent-decoding, SHA-256, argon2, PyJWT's `encode` and `decode`, the
-- cookie signer, the database driver, the clock and the random source, key pairs, `str.upper`, the
-- rendering of an error description, and the answer of the framework to an exception that is no
-- `OAuthError`. A theorem that needs the random source not to repeat a value says so.
--
-- Not modelled: the migrations, Jinja's templates, what FastAPI does before a handler is called and
-- Starlette's quoting of a `Location`, the output of the command line, logging, key generation and
-- the content of the key set. The services and the routes work on the in-memory repositories, one
-- request at a time; only Grant/DeviceCode/Race takes the calls of two requests to a repository
-- apart. A transaction of Sql is one step, so two sessions do not interleave.
pub mod Prelude
pub mod Flow
pub mod Dict
pub mod Domain
pub mod Memory
pub mod World
pub mod ClientAuth
pub mod Token
pub mod Jwt
pub mod Grant
pub mod Service
pub mod System
pub mod Sql
pub mod Http
pub mod Config
pub mod App
pub mod Rest
pub mod Web
mod Tests
