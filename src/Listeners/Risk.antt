-- ===== src/Listeners/Risk.antt =====
-- Which changes of the listeners count as risky.
use wi_fi_roaming_with_i_kua.Prelude.{◌≡◌, ◌≢◌, true, false, none, some, arith}
use wi_fi_roaming_with_i_kua.Text.Laws.{text_eq_iff}
use wi_fi_roaming_with_i_kua.Config.{Config, standalone}
use wi_fi_roaming_with_i_kua.Listeners.{Host, Manager, apply, listener_risky}
use wi_fi_roaming_with_i_kua.Listeners.Reconcile.{apply_wanted, text_eq_of}

-- What a change that is not risky leaves alone.
pub record IsKept (prev next : Config) : Type 0 where
  pub stays_standalone : prev.tls_mode ≡ standalone → next.tls_mode ≡ standalone
  pub same_address : prev.tls_mode ≡ standalone → prev.tls_listen_addr ≡ next.tls_listen_addr
  pub no_new_redirect : next.tls_redirect_http ≡ true → prev.tls_redirect_http ≡ true
  pub same_target : next.tls_redirect_http ≡ true → prev.tls_domain ≡ next.tls_domain

listener_risky-kept : (prev next : Config) → IsKept prev next → listener_risky prev next ≡ false
unfolding listener_risky
listener_risky-kept prev next h = ground (
  arith,
  h.stays_standalone,
  h.same_address,
  h.no_new_redirect,
  h.same_target,
  text_eq_iff prev.tls_mode standalone,
  text_eq_iff next.tls_mode standalone,
  text_eq_iff prev.tls_listen_addr next.tls_listen_addr,
  text_eq_iff prev.tls_domain next.tls_domain,
)

front-proxy :
    (host : Host) (cfg : Config) (m : Manager)
    → cfg.tls_mode ≢ standalone
    → (apply host cfg m).0.front ≡ none
unfolding apply
front-proxy host cfg m ne = ground (arith, ne, text_eq_iff cfg.tls_mode standalone)

-- A portal behind a proxy whose redirect is set already, without effect, that is made standalone with
-- the same domain: the change is not risky, although plain HTTP is redirected after it and was not
-- before it.
pub unarmed_redirect :
    (host : Host) (prev next : Config) (m : Manager)
    → prev.tls_mode ≢ standalone
    → prev.tls_redirect_http ≡ true
    → next.tls_mode ≡ standalone
    → next.tls_redirect_http ≡ true
    → prev.tls_domain ≡ next.tls_domain
    → (apply host next (apply host prev m).0).1 ≡ false
    → (listener_risky prev next ≡ false)
      × ((apply host prev m).0.front ≡ none)
      × ((apply host next (apply host prev m).0).0.front ≡ some next.tls_domain)
unarmed_redirect host prev next m behind set stand set' same e = (
  listener_risky-kept prev next record {
    stays_standalone = λ p. stand;
    same_address = λ p. absurd (behind p);
    no_new_redirect = λ p. set;
    same_target = λ p. same;
  },
  front-proxy host prev m behind,
  ground (
    arith,
    apply_wanted host next (apply host prev m).0 e,
    stand,
    set',
    text_eq_of next.tls_mode standalone stand,
  ),
)
