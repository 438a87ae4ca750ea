-- ===== src/Listeners/Reconcile.antt =====
-- The listeners after a configuration was applied.
use wi_fi_roaming_with_i_kua.Prelude.{
  ◌≡◌, ◌≢◌, true, false, Option, none, some, if◌then◌else◌, arith,
}
use wi_fi_roaming_with_i_kua.Text.{Text, text_eq}
use wi_fi_roaming_with_i_kua.Text.Laws.{text_eq_iff}
use wi_fi_roaming_with_i_kua.Config.{Config, standalone}
use wi_fi_roaming_with_i_kua.Listeners.{
  Host, Manager, stop_tls, use_stored, start_tls, runs_on, set_redirect, apply, StoredPair,
}

-- The address and the redirect that a configuration asks for.
abbrev pub wanted_addr : Config → Option Text
wanted_addr cfg = if text_eq cfg.tls_mode standalone then some cfg.tls_listen_addr else none

abbrev pub wanted_front : Config → Option Text
wanted_front cfg =
    if text_eq cfg.tls_mode standalone
    then (if cfg.tls_redirect_http then some cfg.tls_domain else none)
    else none

tls_addr-use_stored : (s : StoredPair) (m : Manager) → (use_stored s m).tls_addr ≡ m.tls_addr
unfolding use_stored
tls_addr-use_stored s m = ground arith

runs_on-some : (o : Option Text) (addr : Text) → runs_on o addr ≡ true → o ≡ some addr
unfolding runs_on
runs_on-some none addr e = ground (arith, e)
runs_on-some (some a) addr e = ground (arith, e, text_eq_iff a addr)

-- Whatever ran before, applying a configuration without an error leaves HTTPS bound to the address
-- that it asks for, or to none, and plain HTTP redirected as it asks. Which certificate is in use
-- depends on what ran before.
pub apply_wanted :
    (host : Host) (cfg : Config) (m : Manager)
    → (apply host cfg m).1 ≡ false
    → ((apply host cfg m).0.tls_addr ≡ wanted_addr cfg)
      × ((apply host cfg m).0.front ≡ wanted_front cfg)
unfolding apply start_tls stop_tls set_redirect
apply_wanted host cfg m e = (
  ground (
    arith,
    e,
    tls_addr-use_stored (host.stored cfg.tls_domain) m,
    runs_on-some m.tls_addr cfg.tls_listen_addr,
  ),
  ground (
    arith,
    e,
    tls_addr-use_stored (host.stored cfg.tls_domain) m,
    runs_on-some m.tls_addr cfg.tls_listen_addr,
  ),
)

pub text_eq_of : (s t : Text) → s ≡ t → text_eq s t ≡ true
text_eq_of s t e = (text_eq_iff s t).1 e

runs_on_ne : (o : Option Text) (a addr : Text) → o ≡ some a → a ≢ addr → runs_on o addr ≡ false
unfolding runs_on
runs_on_ne o a addr e ne = ground (arith, e, ne, text_eq_iff a addr)

stopped-use_stored : (s : StoredPair) (m : Manager) → (use_stored s m).stopped ≡ m.stopped
unfolding use_stored
stopped-use_stored s m = ground arith

-- If the new address cannot be bound, the HTTPS listener that runs stays where it is, and the error is
-- reported; but the redirect is set as the new configuration asks.
pub apply_unbound :
    (host : Host) (cfg : Config) (m : Manager) (addr : Text)
    → cfg.tls_mode ≡ standalone
    → m.tls_addr ≡ some addr
    → addr ≢ cfg.tls_listen_addr
    → host.can_bind cfg.tls_listen_addr ≡ false
    → ((apply host cfg m).1 ≡ true)
      × ((apply host cfg m).0.tls_addr ≡ some addr)
      × ((apply host cfg m).0.stopped ≡ m.stopped)
      × ((apply host cfg m).0.front ≡ wanted_front cfg)
unfolding apply start_tls stop_tls set_redirect
apply_unbound host cfg m addr mode e ne unbound =
    let std = text_eq_of cfg.tls_mode standalone mode in
    let moved = runs_on_ne m.tls_addr addr cfg.tls_listen_addr e ne in
    let kept = tls_addr-use_stored (host.stored cfg.tls_domain) m in
    let old = stopped-use_stored (host.stored cfg.tls_domain) m in
    (
      ground (arith, std, moved, unbound),
      ground (arith, std, moved, unbound, kept, e),
      ground (arith, std, moved, unbound, kept, e, old),
      ground (arith, std, moved, unbound, kept, e),
    )

-- After any call, from any state, plain HTTP is redirected only while an HTTPS listener runs.
pub redirect_needs_https :
    (host : Host) (cfg : Config) (m : Manager)
    → (apply host cfg m).0.front ≢ none
    → (apply host cfg m).0.tls_addr ≢ none
unfolding apply start_tls stop_tls set_redirect
redirect_needs_https host cfg m h e = ground (arith, h, e)
