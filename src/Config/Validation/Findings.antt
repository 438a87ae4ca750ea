-- ===== src/Config/Validation/Findings.antt =====
-- What a configuration without findings guarantees, and which finding is fatal.
use wi_fi_roaming_with_i_kua.Prelude.{
  ◌≡◌, ◌↔◌, ◌⊎◌, ◌<◌, ◌≤◌, inl, Bool-cases, inr, refl, true, false, ◌||◌, List, [], ◌∷◌, ◌++◌,
  length, if◌then◌else◌, arith, count, count-append,
}
use wi_fi_roaming_with_i_kua.Text.{Text, bytes, is_empty, has_prefix}
use wi_fi_roaming_with_i_kua.Text.Laws.{text_eq_iff}
use wi_fi_roaming_with_i_kua.Config.{Config, is_duo_enabled, standalone}
use wi_fi_roaming_with_i_kua.Config.Validation.{
  Finding, is_fatal, missing_duo, when_missing, check_oidc, check_app_key, check_public_url,
  check_duo, check_domains, check_tls_host, check_tls_domain, validate_runtime_config,
}

-- Duo is enabled when nothing of it is missing.
missing_duo-is_duo_enabled : (c : Config) → (is_duo_enabled c ≡ true) ↔ (length (missing_duo c) ≡ 0)
unfolding missing_duo is_duo_enabled when_missing
missing_duo-is_duo_enabled c = ground arith

append_nil : {A : Type 0} (xs ys : List A) → xs ++ ys ≡ [] → (xs ≡ []) × (ys ≡ [])
append_nil [] ys e = (refl, e)
append_nil (x ∷ xs) ys e = absurd (ground (arith, e))

-- What the checks are there to find.
pub record IsComplete (c : Config) : Type 0 where
  pub has_oidc : (is_empty c.tenant_id || is_empty c.client_id || is_empty c.client_secret) ≡ false
  pub has_app_key : is_empty c.ikuai_app_key ≡ false
  pub uses_https : has_prefix c.public_url (bytes "https://") ≡ true
  pub duo_all_or_none : (is_duo_enabled c ≡ true) ⊎ (length (missing_duo c) ≡ 5)
  pub duo_restricted : is_duo_enabled c ≡ true → 0 < length c.allowed_email_domains
  pub has_tls_domain : c.tls_mode ≡ standalone → is_empty c.tls_domain ≡ false

complete_oidc :
    (c : Config)
    → check_oidc c ≡ []
    → (is_empty c.tenant_id || is_empty c.client_id || is_empty c.client_secret) ≡ false
unfolding check_oidc
complete_oidc c e = ground (arith, e)

complete_app_key : (c : Config) → check_app_key c ≡ [] → is_empty c.ikuai_app_key ≡ false
unfolding check_app_key
complete_app_key c e = ground (arith, e)

complete_url :
    (c : Config) → check_public_url c ≡ [] → has_prefix c.public_url (bytes "https://") ≡ true
unfolding check_public_url
complete_url c e = ground (arith, e)

missing_duo-le : (c : Config) → length (missing_duo c) ≤ 5
unfolding missing_duo when_missing
missing_duo-le c = ground arith

complete_duo :
    (c : Config) → check_duo c ≡ [] → (is_duo_enabled c ≡ true) ⊎ (length (missing_duo c) ≡ 5)
unfolding check_duo
complete_duo c e = elim (Bool-cases (is_duo_enabled c)) [
  | inl on ↦ inl on
  | inr off ↦ inr (ground (arith, e, off, missing_duo-le c, missing_duo-is_duo_enabled c))
]

complete_domains :
    (c : Config)
    → check_domains c ≡ []
    → is_duo_enabled c ≡ true
    → 0 < length c.allowed_email_domains
unfolding check_domains
complete_domains c e on = ground (arith, e, on)

complete_tls :
    (c : Config) → check_tls_domain c ≡ [] → c.tls_mode ≡ standalone → is_empty c.tls_domain ≡ false
unfolding check_tls_domain
complete_tls c e mode = ground (arith, e, mode, text_eq_iff c.tls_mode standalone)

-- Without a finding the configuration is complete: sign-in, the router key and an https address are
-- there, Duo is configured in full or not at all and never without email domains, and a standalone
-- portal has a domain.
pub no_findings-IsComplete :
    (host_of : Text → Text) (c : Config) → validate_runtime_config host_of c ≡ [] → IsComplete c
unfolding validate_runtime_config
no_findings-IsComplete host_of c e =
    let (oidc, e1) = append_nil (check_oidc c) _ e in
    let (app_key, e2) = append_nil (check_app_key c) _ e1 in
    let (url, e3) = append_nil (check_public_url c) _ e2 in
    let (duo, e4) = append_nil (check_duo c) _ e3 in
    let (domains, e5) = append_nil (check_domains c) _ e4 in
    let (host, tls) = append_nil (check_tls_host host_of c) _ e5 in
    record {
      has_oidc = complete_oidc c oidc;
      has_app_key = complete_app_key c app_key;
      uses_https = complete_url c url;
      duo_all_or_none = complete_duo c duo;
      duo_restricted = complete_domains c domains;
      has_tls_domain = complete_tls c tls;
    }

fatal_url :
    (c : Config) → count is_fatal (check_public_url c) ≡ (if is_empty c.public_url then 1 else 0)
unfolding check_public_url is_fatal
fatal_url c = ground arith

fatal_before :
    (c : Config) (l : List Finding)
    → count is_fatal (check_oidc c ++ (check_app_key c ++ l)) ≡ count is_fatal l
unfolding check_oidc check_app_key is_fatal
fatal_before c l = ground arith

fatal_after :
    (host_of : Text → Text) (c : Config)
    → count is_fatal
        (check_duo c ++ (check_domains c ++ (check_tls_host host_of c ++ check_tls_domain c)))
      ≡ 0
unfolding check_duo check_domains check_tls_host check_tls_domain is_fatal
fatal_after host_of c = ground arith

-- Exactly one finding is fatal if there is no public address, and none otherwise.
pub count-is_fatal :
    (host_of : Text → Text) (c : Config)
    → count is_fatal (validate_runtime_config host_of c) ≡ (if is_empty c.public_url then 1 else 0)
unfolding validate_runtime_config
count-is_fatal host_of c = omega (
  arith,
  fatal_before c (
      check_public_url c
      ++ (check_duo c ++ (check_domains c ++ (check_tls_host host_of c ++ check_tls_domain c)))),
  count-append is_fatal (check_public_url c)
      (check_duo c ++ (check_domains c ++ (check_tls_host host_of c ++ check_tls_domain c))),
  fatal_url c,
  fatal_after host_of c,
)
