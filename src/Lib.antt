-- ===== src/Lib.antt =====
-- A captive portal for a router: devices that join the Wi-Fi are sent to it, sign in with an identity
-- provider or redeem a guest code, and the router is told to let them through. This library models
-- the portal's decisions, in portal/.
--
-- The parts of the sign-in and their files:
--   FailCounter     portal/ratelimit.go, failCounter: failure times per address, email or MAC.
--   UsedStates      portal/ratelimit.go, usedStateSet: OIDC states that a callback has consumed.
--   ClientIp        portal/ratelimit.go, clientIP and validIP: the address a request counts for.
--   ProceedTokens   portal/auth_proceed.go, proceedTokenStore: single-use redirect tokens.
--   IpBans          portal/store_ipban.go: the table of cooldowns and each instance's cache of it;
--                   calls of one instance that run beside each other (Interleaved).
--   BanHistory      portal/store_policy.go, banHistory: how many cooldowns an address has had.
--   RateLimit       portal/main.go: recordIPFailure and the helpers of the sign-in handlers, which
--                   put the counters, the cooldowns and the history together.
--   GuestCodes      portal/store_guestcode.go, portal/admin.go, portal/internal/dbstore/models.go: the
--                   two tables of guest codes and their uses (Rows), the operations that write
--                   (Store) and the reads of the admin pages (Queries).
--   Denylist        portal/store_denylist.go, portal/denylist.go, normalizeMAC of portal/ikuai.go.
--   SignIn          portal/main.go, portal/auth_proceed.go: the handlers that let a device onto the
--                   network: handleGuestCode (Redeem), handleCallback and handleDuoCallback
--                   (Callback), handleAuthStart and handleAuthProceed (Start). Their state, Portal,
--                   holds the states of the parts above.
-- The parts of the administration:
--   Secrets         portal/internal/secret/secret.go: the keyring that seals stored credentials.
--   Settings        portal/internal/settings/settings.go: the table of settings; loading, saving,
--                   redacting and merging of a form (Store).
--   Config          portal/config.go, portal/config_settings.go: the configuration, the registry of
--                   settings (Registry), what is built of loaded settings (Runtime) and what is
--                   reported about it (Validation).
--   Listeners       portal/listeners.go: listenerManager, listenerRisky and redirectToHTTPS.
--   ListenerCommit  portal/tls.go, listenerCommit: a listener change that rolls back unless confirmed.
--   AdminSettings   portal/admin_settings.go, portal/runtime.go, applyListenerChange of
--                   portal/listeners.go: the settings pages, which save, reload the configuration of
--                   the parts above, apply it to the listeners and arm the rollback.
--   Cookies         portal/session.go: the signed cookies of visitors and administrators.
--   AdminGate       portal/main.go, portal/oidc.go: requireAdmin, the origin test and the login of
--                   administrators, who come with a cookie of Cookies.
--   LocalAdmin      portal/localadmin.go: the accounts of local administrators and their lockout,
--                   attempts that run beside each other (Concurrent), and the login handler with its
--                   source networks (Login).
--   Forms           portal/main.go: the parsers of form fields.
--   CodePages       portal/main.go, portal/admin.go: the pages that write guest codes, behind AdminGate.
--   LimitPages      portal/main.go: the pages that lift limits and write the denylist, also from a
--                   file (Import), and the policies.
--   Policies        portal/store_policy.go, portal/ikuai_policy.go: the router's limits per profile.
--   EventLog        portal/eventlog.go, portal/store_eventlog.go: the table of events, its filters, its
--                   retention and its export (Export).
-- Prelude, Text, Numbers, Maps and Database hold what they share: numbers, Go strings, Go's int with its
-- decimals, Go maps, and the failures and transactions of a database. Tests holds runs of the model.
--
-- Conventions. A Go string is the list of its bytes; lower-casing and trimming are those of ASCII.
-- A time is a number of nanoseconds, Go's zero time being 0, and where it is compared with a date or
-- written out in seconds it counts from 1970; the times of cookies are seconds. Every operation takes
-- the time it runs at, and one run of a handler reads one time. A threshold that is negative in the
-- code acts as 0. A Go map is an association list; where the code sorts by a time, ties keep the order
-- of the list. Runs are sequences of operations, each with no other between its statements: a mutex
-- or a transaction gives this where the code has one; where it has none, what is said is said of calls
-- that run one after another. Two such places are also taken apart into their steps: the refresh of
-- the cooldowns (IpBans/Interleaved) and the check of a local administrator's password
-- (LocalAdmin/Concurrent). A database statement is a function of the rows, with a flag that says
-- whether it fails; the failures of one call are numbered in its order.
--
-- Loops are structural recursions, three of them on a number. A sweep of the event log has the code's
-- own bound, 1000 batches of 5000 rows, which is enough for five million past events. A batch of codes
-- makes at most the code's own number of attempts. Printing a number has 20 digits, which hold every
-- value of 64 bits.
--
-- Parameters: net.ParseIP, net.SplitHostPort and net.ParseCIDR (ClientIp, LocalAdmin/Login), url.Parse
-- (Config, AdminGate), time.ParseDuration and time.ParseInLocation (Config/Runtime, Forms), the
-- database's LIKE (GuestCodes/Queries, Denylist, EventLog), the code exchange of the identity provider
-- and of Duo (SignIn/Callback), Duo's other calls and url.QueryEscape (SignIn/Start), the hashing and
-- the check of a password (LocalAdmin), fmt's %q (LimitPages), AES-GCM with base64 as Cipher (Secrets), HMAC with JSON and
-- base64 as Codec (Cookies), the discovery of the identity provider (AdminSettings), net.Listen and
-- the stored certificate (Listeners). What is assumed of Cipher and Codec is IsCipher and IsCodec.
-- Random bytes are arguments.
--
-- Not modelled: the HTTP clients of the identity provider, of Duo and of the router, with
-- buildWebAuthURL; TLS certificates and their issuing; of the administration, the pages of the
-- certificates, the export of the denylist, the lists and all rendering; the single-page
-- application and its translations, the command line and startup, and the migration of old files. Of
-- the handlers, the choice of the language and the process log are left out.
pub mod Prelude
pub mod Text
pub mod Maps
pub mod Database
pub mod Numbers
pub mod Config
pub mod FailCounter
pub mod UsedStates
pub mod ProceedTokens
pub mod IpBans
pub mod BanHistory
pub mod ClientIp
pub mod RateLimit
pub mod GuestCodes
pub mod Denylist
pub mod Secrets
pub mod Settings
pub mod SignIn
pub mod ListenerCommit
pub mod EventLog
pub mod Cookies
pub mod AdminGate
pub mod Policies
pub mod Forms
pub mod CodePages
pub mod LimitPages
pub mod AdminSettings
pub mod Listeners
pub mod LocalAdmin
pub mod Tests
