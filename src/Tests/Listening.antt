-- ===== src/Tests/Listening.antt =====
-- The listeners at concrete inputs.
use wi_fi_roaming_with_i_kua.Prelude.{◌≡◌, ◌≢◌, refl, true, false, none, some, arith}
use wi_fi_roaming_with_i_kua.Text.{bytes, text_eq}
use wi_fi_roaming_with_i_kua.Text.Laws.{text_eq_iff}
use wi_fi_roaming_with_i_kua.Config.{Config, standalone, proxy}
use wi_fi_roaming_with_i_kua.Listeners.{
  new_manager, apply, listener_risky, runs_on, start_tls, stop_tls,
}
use wi_fi_roaming_with_i_kua.Listeners.Risk.{unarmed_redirect}
use wi_fi_roaming_with_i_kua.Tests.Stored.{behind_proxy, machine}

abbrev alone : Config
alone = record behind_proxy {
  tls_mode = standalone;
  tls_redirect_http = true;
  tls_domain = bytes "wifi.example";
  tls_listen_addr = bytes "0.0.0.0:443";
}

abbrev inert : Config
inert = record alone { tls_mode = proxy }

inert≢alone : proxy ≢ standalone
unfolding text_eq
inert≢alone = ground (arith, text_eq_iff proxy standalone)

unarmed_redirect_example :
    (listener_risky inert alone ≡ false)
    × ((apply machine inert new_manager).0.front ≡ none)
    × ((apply machine alone (apply machine inert new_manager).0).0.front
        ≡ some (bytes "wifi.example"))
unfolding apply runs_on start_tls stop_tls text_eq
unarmed_redirect_example =
    unarmed_redirect machine inert alone new_manager inert≢alone refl refl refl refl refl
