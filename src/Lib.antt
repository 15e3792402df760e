-- ===== src/Lib.antt =====
-- ocis-mcp-server: an MCP server in front of an oCIS instance, with an OAuth 2.1 authorization server
-- and a consent wizard in which the user chooses spaces and levels.
--
-- A client registers and sends the user to /authorize; after the login the wizard turns the user's
-- choice into a grant and an authorization code (internal/consent); the token endpoint exchanges the
-- code for a signed access token and a refresh token (internal/oauth), all kept by the store
-- (internal/store), its secrets sealed (internal/secretbox). At /mcp each tool call is checked
-- against the grant of the access token (internal/grant); its handler (internal/tools) then calls oCIS
-- with the token of the grant (internal/client).
--
-- Files:
--   Base        tests, lists, results, tables (association lists under a primary key), texts as lists
--               of code points, byte strings and their hexadecimal coding
--   Grant       internal/grant: Level (level.go), Roles (roles.go), Arguments and Catalog
--               (catalog.go); Ceiling, Enforcement and Visibility hold the theorems
--   Secretbox   internal/secretbox/box.go, with its theorems in Roundtrip
--   Store       internal/store/store.go: Db (tables), Clients, Sessions, Grants, Codes; Trace is a
--               sequence of calls; Frame, Marks, Roundtrip, Revocation and SingleUse hold the theorems
--   Pages       what the pages of internal/consent/html.go are made from
--   Http        the requests and responses of net/http
--   Oauth       internal/oauth: Pkce (pkce.go), Jwt (jwt.go), Server and Token (server.go, rand.go);
--               Token.Issuing and Token.Replay hold the theorems
--   Oidc        internal/oidc/spaces.go: the spaces of the user with their ceilings; Ceilings and
--               Given hold the theorems
--   Consent     internal/consent: Flow (session.go), Handler and Steps (handler.go); Ceiling,
--               Reachable, Requests (sequences of requests) and Granted hold the theorems
--   Config      internal/config/config.go, with its theorem in Exposure
--   Httpapi     internal/httpapi/server.go and internal/middleware/http.go: who may use /mcp, with its
--               theorem in Access
--   Client      internal/client: requests and their credential (client.go, authctx.go), Retry and Errors
--               (client.go, errors.go), Graph (libregraph.go), FileInfo, Webdav and Escape (webdav.go);
--               Attempts holds the theorems on the retry loop, Sends, Admits and Calls what all
--               requests of a call have in common, Texts, Bodies and Names theorems on texts
--   Tools       internal/tools: Files and FileReads (files.go), Drives (types; helpers.go), Bodies (what
--               the handlers share), Spaces, Shares, Users, Groups, Search, Workflows, Notifications,
--               AppTokens, Settings, Admin, Ocm, Education, each for the file of its name, Calls,
--               Names, Annotations and Serve (register.go and the register functions), Resources
--               (resources.go); PathSends, Confined, Bearing, Confirmation, Granted, Hints, Readers
--               and ResourceReads hold the theorems
--   Examples    concrete stand-ins for the libraries, and the theorems applied to concrete inputs
--
-- Each function of the source is a definition of its name in snake_case. A handler takes the store
-- and what the world answers during the call (`Io`, `Env`: the clock, random bytes, which SQL
-- statement fails) and returns the response with the store after the call. SQL statements are
-- operations on tables, each atomic; the two `Consume` methods hold the mutex and are one step.
-- Libraries (AES-GCM, HKDF, base64, encoding/json, SHA-256, HMAC, JWT, net/url, oauth2) are parameters with
-- the laws that the code relies on.
--
-- A call to oCIS (`Net`) takes the requests sent and the pauses slept so far (`Wire`) and returns its
-- value or error with both after the call; the network is a function that answers a request from all
-- that was sent before, so a theorem for every network holds for every sequence of answers. A request is one
-- that the code hands to http.Client.Do; the redirects that net/http follows are not in `Wire`. Bodies
-- of requests are JSON trees or texts; what encoding/json and encoding/xml decode is a parameter.
--
-- Loops are over lists, but for the retry loop, which runs on the three attempts of the source, and the
-- digits of a number, which are at most the twenty of 64 bits.
--
-- Not modelled: prompts.go (internal/tools), fixed texts, the descriptions of the tools, the HTML
-- text (internal/consent/html.go, internal/theme), discovery (internal/oidc/discover.go),
-- logging, the process entry (cmd), and the wiring of the routes (internal/httpapi).
pub mod Base
pub mod Grant
pub mod Secretbox
pub mod Store
pub mod Pages
pub mod Http
pub mod Oidc
pub mod Oauth
pub mod Consent
pub mod Config
pub mod Httpapi
pub mod Client
pub mod Tools
pub mod Examples
