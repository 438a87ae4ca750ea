-- ===== src/Config/Validation.antt =====
-- portal/config_settings.go: `validateRuntimeConfig`. The text of a message is left to its kind.
pub mod Findings
use wi_fi_roaming_with_i_kua.Prelude.{
  ℕ, Bool, true, false, ◌&&◌, ◌||◌, not, List, [], ◌∷◌, ◌++◌, length, ltb, if◌then◌else◌,
}
use wi_fi_roaming_with_i_kua.Text.{Text, bytes, text_eq, is_empty, has_prefix, to_lower}
use wi_fi_roaming_with_i_kua.Config.{Config, is_duo_enabled, standalone}
use wi_fi_roaming_with_i_kua.Config.Registry.{
  sec_oidc, sec_ikuai, sec_portal, sec_duo, sec_auth, sec_tls,
}

-- The findings, with the missing Duo settings, or the two hosts.
pub data Finding : Type 0 where
  oidc_incomplete : Finding
  no_app_key : Finding
  no_public_url : Finding
  public_url_not_https : Finding
  duo_partial : List Text → Finding
  duo_any_domain : Finding
  domain_mismatch : Text → Text → Finding
  no_tls_domain : Finding

-- ConfigProblem: the section and the key, and whether it is fatal.
unfoldable pub section_of : Finding → Text
section_of oidc_incomplete = sec_oidc
section_of no_app_key = sec_ikuai
section_of no_public_url = sec_portal
section_of public_url_not_https = sec_portal
section_of (duo_partial missing) = sec_duo
section_of duo_any_domain = sec_auth
section_of (domain_mismatch domain host) = sec_tls
section_of no_tls_domain = sec_tls

unfoldable pub key_of : Finding → Text
key_of oidc_incomplete = []
key_of no_app_key = bytes "app_key"
key_of no_public_url = bytes "public_url"
key_of public_url_not_https = bytes "public_url"
key_of (duo_partial missing) = []
key_of duo_any_domain = bytes "allowed_email_domains"
key_of (domain_mismatch domain host) = bytes "domain"
key_of no_tls_domain = bytes "domain"

unfoldable pub is_fatal : Finding → Bool
is_fatal oidc_incomplete = false
is_fatal no_app_key = false
is_fatal no_public_url = true
is_fatal public_url_not_https = false
is_fatal (duo_partial missing) = false
is_fatal duo_any_domain = false
is_fatal (domain_mismatch domain host) = false
is_fatal no_tls_domain = false

unfoldable pub when_missing : Text → Text → List Text
when_missing value name = if is_empty value then name ∷ [] else []

-- The missing Duo settings, sorted by name.
unfoldable pub missing_duo : Config → List Text
missing_duo c =
    when_missing c.duo_api_host (bytes "api_host")
    ++ (when_missing c.duo_client_id (bytes "client_id")
        ++ (when_missing c.duo_client_secret (bytes "client_secret")
            ++ (when_missing c.duo_ikey (bytes "ikey") ++ when_missing c.duo_skey (bytes "skey"))))

unfoldable pub check_oidc : Config → List Finding
check_oidc c =
    if is_empty c.tenant_id || is_empty c.client_id || is_empty c.client_secret
    then oidc_incomplete ∷ []
    else []

unfoldable pub check_app_key : Config → List Finding
check_app_key c = if is_empty c.ikuai_app_key then no_app_key ∷ [] else []

unfoldable pub check_public_url : Config → List Finding
check_public_url c =
    if is_empty c.public_url
    then no_public_url ∷ []
    else if has_prefix c.public_url (bytes "https://")
    then []
    else public_url_not_https ∷ []

unfoldable pub check_duo : Config → List Finding
check_duo c =
    let missing = missing_duo c in
    if ltb (length missing) 5 && ltb 0 (length missing) then duo_partial missing ∷ [] else []

unfoldable pub check_domains : Config → List Finding
check_domains c =
    if is_duo_enabled c && not (ltb 0 (length c.allowed_email_domains))
    then duo_any_domain ∷ []
    else []

unfoldable pub check_tls_host : (Text → Text) → Config → List Finding
check_tls_host host_of c =
    let host = host_of c.public_url in
    if text_eq c.tls_mode standalone && not (is_empty c.tls_domain) && not (is_empty c.public_url)
    then (if not (is_empty host) && not (text_eq (to_lower host) (to_lower c.tls_domain))
        then domain_mismatch c.tls_domain host ∷ []
        else [])
    else []

unfoldable pub check_tls_domain : Config → List Finding
check_tls_domain c =
    if text_eq c.tls_mode standalone && is_empty c.tls_domain then no_tls_domain ∷ [] else []

-- validateRuntimeConfig
unfoldable pub validate_runtime_config : (Text → Text) → Config → List Finding
validate_runtime_config host_of c =
    check_oidc c
    ++ (check_app_key c
        ++ (check_public_url c
            ++ (check_duo c
                ++ (check_domains c ++ (check_tls_host host_of c ++ check_tls_domain c)))))
