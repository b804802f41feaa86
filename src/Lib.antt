-- ===== src/Lib.antt =====
-- cimd-proxy stands between OAuth clients and an upstream authorization server (Keycloak). It keeps no
-- session: what one request must tell a later one travels as an encrypted envelope, in the upstream's
-- `state`, in the client's `code`, in its `refresh_token` or as its `client_id`. This library models the
-- Python package src/cimd_proxy and proves properties of its endpoints.
--
-- How the parts interact. `/authorize` (Authorize) checks a request, finds the client's registration,
-- either a metadata document at an https URL through CimdService, which joins Cache and Fetcher, or a
-- registration envelope that `/register` (Register) issued, and redirects to the upstream with an
-- authorize envelope as `state`. `/callback` (Callback) opens that envelope and sends the browser back to
-- the client with a code envelope. `/token` (Token) opens the code envelope, checks it, redeems the
-- upstream's code, and replaces the upstream's refresh token by a refresh envelope. Flow composes the
-- three. Apart from these, an owner manages personal access tokens at `/pat/tokens` (Pat/Api on
-- Pat/Manage), which stand in a table (Pat/Table) and which `/token` exchanges for access tokens of the
-- realm (Pat/Exchange). The command line (Cli) is a client of all these: it finds the proxy, registers,
-- signs in and makes one management call.
--
-- The files and the code. Definitions keep the names of the source, without a leading underscore.
--   Errors          src/cimd_proxy/errors.py, and the exceptions of the other modules; `Result` is a
--                   computation that may raise
--   Effects         what a handler asks of the world, as a tree `Prog`; `run` plays it in a `World`,
--                   `sent` lists the HTTP requests that it makes
--   Platform        Fernet, SHA-256, RSA and the text form of JSON, as functions with laws
--   Url, Url/*      urllib.parse: urlsplit, hostname, port, urlunsplit without a path, urlencode
--   Json            JSON values; Digits prints numbers
--   Cache           src/cimd_proxy/cache.py
--   Pkce            src/cimd_proxy/pkce.py
--   Envelope, Codec src/cimd_proxy/envelope.py
--   RedirectUri     src/cimd_proxy/redirect_uri.py
--   Config          src/cimd_proxy/config.py: the records and the resource lookup; Config/Env, Resources,
--                   Signer and Load are `load_config` and what it calls
--   Fetcher         src/cimd_proxy/fetcher.py: ClientId, Addresses, Schema and Body are its parts,
--                   Network and Document hold proofs
--   CimdService     src/cimd_proxy/cimd_service.py
--   Http            the responses; src/cimd_proxy/upstream.py, src/cimd_proxy/correlation.py
--   Authorize       src/cimd_proxy/authorize.py
--   Callback        src/cimd_proxy/callback.py
--   Token           src/cimd_proxy/token.py
--   Register        src/cimd_proxy/register.py
--   Discovery       src/cimd_proxy/discovery.py, its routes in src/cimd_proxy/app.py
--   Assertion       src/cimd_proxy/assertion.py; its PEM files in Config/Signer
--   Keycloak        src/cimd_proxy/keycloak.py, but for `jwt_bearer_grant`, which is in Pat/Exchange
--   Logging         src/cimd_proxy/logging_setup.py: what is redacted, the filter, and the payload of a line
--   Pat             Record, Table: src/cimd_proxy/pat_store.py, what its statements do to a table under
--                   the constraints of src/cimd_proxy/migrations/V1__personal_access_token.sql; Format:
--                   src/cimd_proxy/pat_format.py; Exchange, Create, Authenticate, Manage: `exchange`,
--                   `parse_create`, `authenticate` and the other methods of src/cimd_proxy/pat.py; Api:
--                   src/cimd_proxy/pat_api.py; Uuid and Datetime: the text forms of the standard library;
--                   Schema: `check_schema` and src/cimd_proxy/migrations/__init__.py
--   App             the life of the application around the token store, in src/cimd_proxy/app.py
--   Cli             src/cimd_proxy/pat_cli.py: discovery; Cli/Receiver, SignIn and Commands: the loopback
--                   redirect, the sign-in, and the commands with what they write (Printed)
--   Tests           concrete runs
--
-- State. The cache of documents is passed from call to call. A handler's only other state is in the
-- envelopes. A world answers by functions, so its clock stands still within one run; two runs have two
-- worlds. The cache's monotonic clock and the wall clock are one clock here, in whole seconds. The token
-- table is passed along by `play`, which runs a handler's statements on it, each in a transaction of its
-- own; `Reach` relates a table to those that any statements of any handlers, interleaved in any way, make
-- of it, so that what holds along `Reach` holds under concurrency too. The random source of a world is a
-- number, from which an id and a token are drawn.
--
-- Bounds. Every loop is structural: over the chunks of a body, the addresses of a host, the entries of a
-- list, the characters of a text. The digits of a number are printed on fuel, one more than the number,
-- and so are the bytes of a key's numbers. The table of signing keys is read on fuel, one more than
-- the environment has entries, of which each round finds another. Numbers are unbounded, as in Python.
--
-- Parameters. Fernet's laws (`IsLawful`): a token opens under its key, for its time to live and not
-- after it, and is ASCII; another is of httpx: a text is written into a form as itself. `ReadsBack`: the JSON text of a value reads back as the value. `ip_address`
-- gives the zones of an address, as the module `ipaddress` does. Nothing is assumed of SHA-256. `file`
-- gives what the PEM reader makes of a key file and `seconds` what `float` makes of a text; nothing is
-- assumed of either. In the command line `loopback` is `ip_address(…).is_loopback`, `parse_qs` the
-- function of urllib, and `browse` what the loopback receiver has received once a URL has been opened: the
-- browser, its user and every other visitor may do anything. Nothing is assumed of these.
--
-- Not modelled. Log lines, the handlers of the log, and the context variable of the correlation
-- id, which only they read. The message of a JSON parse error. `str.lower`, `isdigit` and whitespace
-- beyond ASCII, the keys of the environment beyond ASCII, and the NFKC check of a non-ASCII host in
-- urlsplit. A subject in an introspection that is no text is
-- an exception here, and a user name that is no text counts as missing. Times are in UTC, as the database
-- session is taken to be. Of the random source nothing is modelled but that it gives a number. The classes of
-- Python's own exceptions are kept apart only where a handler does. The connection pool, the rest of the
-- application's wiring, which constructs these parts and mounts their routes, the parsers of command
-- lines and the pages and threads of the loopback server, and what a migration does besides its
-- constraints.
pub mod Prelude
pub mod Errors
pub mod Json
pub mod Url
pub mod Pat
pub mod Platform
pub mod Assertion
pub mod Config
pub mod Pkce
pub mod Envelope
pub mod Codec
pub mod Cache
pub mod Digits
pub mod Discovery
pub mod Keycloak
pub mod Logging
pub mod Fetcher
pub mod CimdService
pub mod Http
pub mod Authorize
pub mod Callback
pub mod Token
pub mod Register
pub mod Effects
pub mod RedirectUri
pub mod Flow
pub mod Tests
pub mod Cli
pub mod App
