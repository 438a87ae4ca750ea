-- ===== src/ClientIp/Trust.antt =====
-- Which headers of a request decide the address that it counts for.
use wi_fi_roaming_with_i_kua.Prelude.{ℕ, ◌≡◌, false, [], ◌∷◌, Option, ◌==◌, arith}
use wi_fi_roaming_with_i_kua.Text.{Text}
use wi_fi_roaming_with_i_kua.ClientIp.{Request, client_ip}

-- A text without the byte.
abbrev pub Lacks : ℕ → Text → Type 0
Lacks sep [] = Unit {0}
Lacks sep (c ∷ t) = ((c == sep) ≡ false) × Lacks sep t

module _ (parse_ip : Text → Option Text) (split_host_port : Text → Option Text) where
  -- Without trusted proxies the address is that of the connection, whatever the headers say.
  pub headers_untrusted :
      (r other : Request)
      → r.remote_addr ≡ other.remote_addr
      → client_ip parse_ip split_host_port false r ≡ client_ip parse_ip split_host_port false other
  unfolding client_ip
  headers_untrusted r other same = ground (arith, same)
