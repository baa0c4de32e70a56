-- ===== src/Lib.antt =====
-- step-ui-ng: a web interface for step-ca. This library models the core of the Go program: who may
-- log in and manage accounts, what the audit log keeps, what is done to certificates, how the
-- connection to the CA is stored, and what is sent to the CA.
--
-- Users (Users/*.antt) is internal/users/users.go. `Role` holds the roles and their order, `Table`
-- the table `users` with the SQL statements over it, `Repo` the operations of the type `Repo`:
-- each is a function from a table to a result and a table, with the source's checks in the
-- source's order. The other files state what the operations do.
--
-- Audit (Audit/*.antt) is internal/audit/audit.go: `Log` has `Record`, `RecordDenied` and `List`.
--
-- Certs (Certs/*.antt) is internal/certs/certs.go and internal/certs/revoke.go: `Sans` has
-- `normalizeSANs`, `classifySAN` and their neighbours, `Store` the table `certificates` and the
-- state of the service, `Service` the operations `Issue`, `Sign`, `ParseCSR`, `Revoke` and
-- `Renew`; `Inventory` is internal/certs/inventory.go: `DeriveStatus`, `List`, `Get` and `Bundle`,
-- whose archive is the list of its files, and `Names` its `ListProvisioners`; `Parsed` is
-- internal/certs/parsed_cert.go. The state holds the stored rows, the audit log of Audit,
-- and the list of calls that went to the CA. An operation is a state-passing function (`Op`): what
-- it has written stays when a later step fails, since the source uses no transaction there.
--
-- Settings (Settings/*.antt) is internal/settings/settings.go: `Store` has the row of the table
-- `ca_settings`, `Repo` the operations of the type `Repo`. `Spec` says without columns and sealed
-- texts what the component promises, and when a row stands for such settings. The source discards the
-- error of `RowsAffected`; a count that fails is a failure of its own (`rows_affected`).
--
-- Ca (Ca/*.antt) is internal/ca. `Net` has the HTTP calls, which are kept in a list (`Net`), and
-- `fetch` and `adminRequest`; `Fingerprint` and `Pinned` are the rest of ca.go, `Spec`, `Token`
-- and `Provisioners` provisioners.go and the ACME options of acme.go, `Eab` the keys of acme.go,
-- `Sign` sign.go, `Revoke` revoke.go and the minted credential of admin_auth.go. What the CA
-- answers is a function of the call and of all calls before it. A call is one `client.Do`; the client
-- sets no `CheckRedirect`, and the requests that net/http makes when it follows a redirect are outside
-- of the model. The loops over the pages of a list
-- are not bounded in the source; they take fuel, one unit for each page, and return `none` when it
-- is used up. A list of `n` pages needs `n`; a CA that repeats a cursor is followed for ever.
--
-- App (App/*.antt) is the part of internal/app about accounts. `State` has what the handlers work
-- on, `Gate` the guards of internal/app/middleware.go (`loadUser`, `firstRun`, `requireAuth`,
-- `requireRole`), `Accounts` the handlers of internal/app/handlers.go, `Server` the routes and the
-- inner stack of `NewHandler` in internal/app/server.go. A handler is a function from the
-- accounts, the log and the client's session to a response and the same; it calls the operations
-- of Users and Audit. A handler behind `requireRole` takes the user that it finds in the context
-- as an argument. `Inventory` has the paging of `getInventory` in internal/app/inventory.go, on
-- 64-bit `int`s that wrap around, and `AuditPage` is internal/app/audit.go.
--
-- Desk (Desk/*.antt) is internal/app/provisioners.go: the handlers that select, create and delete a
-- provisioner, which call Settings, Ca and Audit. An answer is `none` if the CA keeps the request
-- busy for ever.
--
-- `Panel` is internal/app/settings.go: the handlers that save and test the connection and set the
-- admin authentication; `Asked` says which operation of Settings a form asks for, and `Requests` has
-- sequences of such requests.
--
-- Acme (Acme/*.antt) is internal/app/acme.go and internal/app/snippets.go: the pages of ACME
-- provisioners and of their EAB keys, on the same state as Desk. `Handlers` has the handlers,
-- `Forms` what they read and answer, `Snippets` the texts for clients.
--
-- Pages (Pages/*.antt) is internal/app/certs.go and internal/app/revoke.go: `Fields` parses forms,
-- `Names` has the names of downloads, `State` the stored connection that a request uses, `Handlers`
-- the handlers that issue, sign, revoke and renew with the service of Certs.
-- Its `Inventory` has the handlers of internal/app/inventory.go, `Secrets` and `Reads` say which
-- answers hold key material.
--
-- Site (Site/*.antt) puts these together: `State` is the state of the whole program, with a view of
-- it for each part, and `Server` every route of `NewHandler` in internal/app/server.go and of
-- `registerInventoryRoutes`, with the guards of App around the handler of its page. The guards serve
-- any kind of answer (`Answers`).
--
-- Crypto (Crypto/*.antt) is internal/crypto/crypto.go: `Box` has `Seal` and `Open` over AES-GCM and
-- base64, `Key` has `loadOrCreateKey` as a program over the calls of the operating system, whose
-- results `Files` gives. Processes that start at once take turns, one call each; a call may fail,
-- and a process may stop between two calls.
--
-- Config is internal/config/config.go: `Load`, and `LoadWithFlags` with what the package flag does.
--
-- Base holds Booleans, lists, results, texts and integers that these share.
--
-- Outside of the source stands, as a parameter of each call: which call of the database driver
-- fails, the clock, argon2id, the CA behind `Signer` and `Revoker`, key generation, PEM, JSON,
-- PKCS#12, AES-GCM, base64 and the file system. The other components take the sealing box as a
-- parameter too; Crypto puts its own in that place. A theorem about several calls takes a new
-- parameter for each. SQL statements are functions on the list of rows in the order of their ids;
-- AUTOINCREMENT ids are native numbers without bound, so the 2^63rd row of a table is out of the
-- model. An id that a caller hands in is the number of its 64-bit pattern, and is only compared.
-- Each statement runs alone: calls of the program that overlap are sequences of calls, since SQLite
-- serializes writers; what other requests do between two calls of one handler is a list of calls in
-- its parameter (`meanwhile`). Apart from the loops over pages, loops are structural recursion.
--
-- Not modelled: the session manager, rendering, the CSRF check and the attributes of the session
-- cookie, which are calls of libraries; the migrations, the version, the static files and the
-- start-up. The certificate service takes the CA as a parameter: `Signer` and `Revoker` are
-- interfaces, and the client of Ca is one implementation of them.

pub mod Base
pub mod Users
pub mod Audit
pub mod Ca
pub mod Settings
pub mod Certs
pub mod App
pub mod Desk
pub mod Crypto
pub mod Acme
pub mod Pages
pub mod Site
pub mod Config
