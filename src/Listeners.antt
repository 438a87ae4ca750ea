-- ===== src/Listeners.antt =====
-- portal/listeners.go: the listeners of the portal and how a configuration changes them, with
-- `redirectToHTTPS` of portal/main.go. What net.Listen answers for an address and what the stored
-- certificate of a domain is are arguments. Waiting for a stopped server's requests is left out.
pub mod Reconcile
pub mod Risk
use wi_fi_roaming_with_i_kua.Prelude.{
  ℕ, Bool, true, false, ◌&&◌, ◌||◌, not, List, [], ◌∷◌, ◌++◌, Option, none, some, if◌then◌else◌,
}
use wi_fi_roaming_with_i_kua.Text.{Text, bytes, text_eq, is_empty, has_prefix}
use wi_fi_roaming_with_i_kua.Config.{Config, standalone}

-- What the load of a stored certificate gives.
pub data StoredPair : Type 0 where
  load_failed : StoredPair
  no_pair : StoredPair
  pair : ℕ → StoredPair

-- The environment of one call.
pub record Host : Type 0 where
  pub can_bind : Text → Bool
  pub stored : Text → StoredPair

-- listenerManager: the domain that the front redirects to, the address that HTTPS is bound to, the
-- certificate in use, and the addresses of the servers that were shut down, the last one first.
pub record Manager : Type 0 where
  pub front : Option Text
  pub tls_addr : Option Text
  pub certificate : Option ℕ
  pub stopped : List Text

-- newListenerManager
abbrev pub new_manager : Manager
new_manager = record { front = none; tls_addr = none; certificate = none; stopped = [] }

-- stopTLSLocked
unfoldable pub stop_tls : Manager → Manager
stop_tls m = elim m.tls_addr [
  | none ↦ m
  | some addr ↦ record m { tls_addr = none; stopped = addr ∷ m.stopped }
]

unfoldable pub use_stored : StoredPair → Manager → Manager
use_stored load_failed m = m
use_stored no_pair m = m
use_stored (pair c) m = record m { certificate = some c }

-- startTLSLocked, true where it fails.
unfoldable pub start_tls : Host → Config → Manager → Manager × Bool
start_tls host cfg m =
    let loaded = use_stored (host.stored cfg.tls_domain) m in
    if host.can_bind cfg.tls_listen_addr
    then (record (stop_tls loaded) { tls_addr = some cfg.tls_listen_addr }, false)
    else (loaded, true)

-- Whether HTTPS runs on an address.
unfoldable pub runs_on : Option Text → Text → Bool
runs_on none addr = false
runs_on (some a) addr = text_eq a addr

-- The end of `apply`: the redirect.
unfoldable pub set_redirect : Config → Manager → Manager
set_redirect cfg m = elim m.tls_addr [
  | none ↦ record m { front = none }
  | some addr ↦ record m { front = if cfg.tls_redirect_http then some cfg.tls_domain else none }
]

-- apply, true where it fails.
unfoldable pub apply : Host → Config → Manager → Manager × Bool
apply host cfg m =
    let restarted = start_tls host cfg m in
    if not (text_eq cfg.tls_mode standalone)
    then (record (stop_tls m) { front = none }, false)
    else if runs_on m.tls_addr cfg.tls_listen_addr
    then (set_redirect cfg m, false)
    else (set_redirect cfg restarted.0, restarted.1)

-- running
unfoldable pub running : Manager → Text × Bool
running m = elim m.tls_addr [ none ↦ ([], false) | some addr ↦ (addr, true) ]

-- shutdown
unfoldable pub shutdown : Manager → Manager
shutdown m = stop_tls m

-- Where a request of the plain listener goes.
pub data Answer : Type 0 where
  portal : Answer
  challenge : Answer
  redirect : Text → Answer

-- redirectToHTTPS, for a path, the host of the request and its URI.
unfoldable pub redirect_to_https : Text → Text → Text → Text → Answer
redirect_to_https domain path request_host uri =
    let host = if is_empty domain then request_host else domain in
    if has_prefix path (bytes "/.well-known/acme-challenge/")
    then challenge
    else if text_eq path (bytes "/healthz")
    then portal
    else redirect (bytes "https://" ++ (host ++ uri))

-- ServeHTTP
unfoldable pub serve_http : Manager → Text → Text → Text → Answer
serve_http m path request_host uri = elim m.front [
  | none ↦ portal
  | some domain ↦ redirect_to_https domain path request_host uri
]

-- listenerRisky
unfoldable pub listener_risky : Config → Config → Bool
listener_risky prev next =
    if text_eq prev.tls_mode standalone && not (text_eq next.tls_mode standalone)
    then true
    else if next.tls_redirect_http && not prev.tls_redirect_http
    then true
    else if text_eq next.tls_mode standalone
        && text_eq prev.tls_mode standalone
        && not (text_eq prev.tls_listen_addr next.tls_listen_addr)
    then true
    else if next.tls_redirect_http && not (text_eq prev.tls_domain next.tls_domain)
    then true
    else false
