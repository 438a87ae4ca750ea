-- ===== src/ClientIp.antt =====
-- portal/ratelimit.go: `clientIP` and `validIP`, which address a request counts for. The standard
-- library's net.ParseIP followed by IP.String, and net.SplitHostPort, are parameters.
pub mod Trust
use wi_fi_roaming_with_i_kua.Prelude.{
  ℕ, Bool, true, false, List, [], ◌∷◌, reverse, Option, none, some, if◌then◌else◌, ◌==◌,
}
use wi_fi_roaming_with_i_kua.Text.{Text, is_empty, trim_space}

-- The parts of an http.Request that the code reads; an absent header is the empty text.
pub record Request : Type 0 where
  pub real_ip : Text
  pub forwarded_for : Text
  pub remote_addr : Text

-- strings.Split at one byte.
unfoldable pub split_from : ℕ → Text → Text → List Text
split_from sep part [] = reverse part ∷ []
split_from sep part (c ∷ s) =
    if c == sep then reverse part ∷ split_from sep [] s else split_from sep (c ∷ part) s

unfoldable pub split : ℕ → Text → List Text
unfolding split_from
split sep s = split_from sep [] s

module _ (parse_ip : Text → Option Text) (split_host_port : Text → Option Text) where
  -- The normalised address, or the empty text.
  unfoldable pub valid_ip : Text → Text
  unfolding trim_space is_empty
  valid_ip raw =
      let s = trim_space raw in
      if is_empty s then [] else elim (parse_ip s) [ none ↦ [] | some ip ↦ ip ]

  -- The loop from the last part to the first.
  unfoldable pub first_valid : List Text → Option Text
  unfolding valid_ip is_empty
  first_valid [] = none
  first_valid (part ∷ parts) =
      let ip = valid_ip part in if is_empty ip then first_valid parts else some ip

  unfoldable pub remote_host : Text → Text
  remote_host addr = elim (split_host_port addr) [ none ↦ addr | some host ↦ host ]

  unfoldable pub client_ip : Bool → Request → Text
  unfolding valid_ip first_valid remote_host split is_empty
  client_ip trust_proxy_headers r =
      let xri = valid_ip r.real_ip in
      let forwarded =
        if is_empty r.forwarded_for
        then none
        else first_valid (reverse (split b',' r.forwarded_for)) in
      let remote = remote_host r.remote_addr in
      if trust_proxy_headers
      then (if is_empty xri then elim forwarded [ none ↦ remote | some ip ↦ ip ] else xri)
      else remote
