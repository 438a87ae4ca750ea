-- ===== src/Policies.antt =====
-- portal/ikuai_policy.go, portal/store_policy.go and portal/ikuai.go: the router's policy of each way
-- to sign in, with its table and its cache, and the account name that the router shows.
pub mod Cached
use wi_fi_roaming_with_i_kua.Prelude.{
  ℕ, ◌+◌, Bool, true, false, ◌&&◌, ◌||◌, List, [], ◌∷◌, ◌++◌, Option, none, some, if◌then◌else◌,
  length, ltb, drop,
}
use wi_fi_roaming_with_i_kua.Text.{Text, bytes, text_eq, is_empty, to_lower, trim_space, has_prefix}
use wi_fi_roaming_with_i_kua.Maps.{Map, lookup, put}
use wi_fi_roaming_with_i_kua.Database.{Faults}
use wi_fi_roaming_with_i_kua.Numbers.{ℤ, pos, is_negative}
use wi_fi_roaming_with_i_kua.Config.{RouterPolicy, PolicyDefaults}

-- IKuaiAuthProfile, where it is one of the three.
pub data PolicyProfile : Type 0 where
  sso : PolicyProfile
  duo : PolicyProfile
  guest : PolicyProfile

unfoldable pub profile_name : PolicyProfile → Text
profile_name sso = bytes "sso"
profile_name duo = bytes "duo"
profile_name guest = bytes "guest"

-- allIKuaiProfiles
abbrev pub all_profiles : List PolicyProfile
all_profiles = sso ∷ duo ∷ guest ∷ []

-- parseIKuaiProfile
unfoldable pub parse_profile : Text → Option PolicyProfile
parse_profile s =
    let t = to_lower (trim_space s) in
    if text_eq t (bytes "sso")
    then some sso
    else if text_eq t (bytes "duo")
    then some duo
    else if text_eq t (bytes "guest")
    then some guest
    else none

-- ikuaiProfileLabel
unfoldable pub profile_label : PolicyProfile → Text
profile_label sso = bytes "SSO member"
profile_label duo = bytes "Duo member"
profile_label guest = bytes "guest_code"

pub data PolicyError : Type 0 where
  negative_value : PolicyError
  comment_too_long : PolicyError
  invalid_profile : PolicyError
  not_saved : PolicyError

-- validateIKuaiPolicy
unfoldable pub validate_policy : RouterPolicy → Option PolicyError
validate_policy p =
    if is_negative p.upload || (is_negative p.download || is_negative p.timeout)
    then some negative_value
    else if ltb 128 (length (trim_space p.comment))
    then some comment_too_long
    else none

-- normalizeIKuaiPolicyForProfile
unfoldable pub normalize_policy : PolicyProfile → RouterPolicy → RouterPolicy
normalize_policy sso p = record p { comment = trim_space p.comment }
normalize_policy duo p = record p { comment = trim_space p.comment }
normalize_policy guest p = record p { comment = trim_space p.comment; timeout = pos 0 }

-- The default of a profile.
unfoldable pub default_policy : PolicyDefaults → PolicyProfile → RouterPolicy
default_policy d sso = d.sso
default_policy d duo = d.duo
default_policy d guest = d.guest

-- The table, by the name of the profile, and the cache of this instance, none before the first load.
pub record PolicyStore : Type 0 where
  pub table : Map RouterPolicy
  pub cache : Option (Map RouterPolicy)

-- ON CONFLICT DO NOTHING of one row.
unfoldable pub insert_new : PolicyDefaults → PolicyProfile → Map RouterPolicy → Map RouterPolicy
insert_new d profile table = elim (lookup (profile_name profile) table) [
  | some p ↦ table
  | none ↦ put (profile_name profile) (normalize_policy profile (default_policy d profile)) table
]

-- seedMissing, none where the statement fails.
unfoldable pub seed_missing : Bool → PolicyDefaults → Map RouterPolicy → Option (Map RouterPolicy)
seed_missing fails d table =
    if fails then none else some (insert_new d guest (insert_new d duo (insert_new d sso table)))

-- Refresh
unfoldable pub refresh_policies : Bool → PolicyStore → PolicyStore
refresh_policies fails s = if fails then s else record s { cache = some s.table }

-- newIKuaiPolicyStore, none where a statement fails.
unfoldable pub new_policy_store : Faults → PolicyDefaults → Map RouterPolicy → Option PolicyStore
new_policy_store fails d table = elim (seed_missing (fails 0) d table) [
  | none ↦ none
  | some seeded ↦ if fails 1 then none else some record { table = seeded; cache = some seeded }
]

-- Get
unfoldable pub get_policy : PolicyDefaults → PolicyStore → PolicyProfile → RouterPolicy
get_policy d s profile = elim s.cache [
  | none ↦ default_policy d profile
  | some cached ↦ elim (lookup (profile_name profile) cached) [
    | none ↦ default_policy d profile
    | some p ↦ p
  ]
]

-- Set, of the profile with a name.
unfoldable pub set_policy :
    Faults → Text → RouterPolicy → PolicyStore → PolicyStore × Option PolicyError
set_policy fails name p s = elim (parse_profile name) [
  | none ↦ (s, some invalid_profile)
  | some profile ↦ elim (validate_policy p) [
    | some e ↦ (s, some e)
    | none ↦
        let stored : PolicyStore = record s {
          table =
              put name
                (if text_eq name (bytes "guest")
                  then normalize_policy guest p
                  else normalize_policy sso p)
                s.table;
        } in
        if fails 0 then (s, some not_saved) else (refresh_policies (fails 1) stored, none)
  ]
]

-- List
unfoldable pub list_policies :
    PolicyDefaults → PolicyStore → List PolicyProfile → List (Text × Text × RouterPolicy)
list_policies d s [] = []
list_policies d s (profile ∷ profiles) =
    (profile_name profile, profile_label profile, get_policy d s profile)
    ∷ list_policies d s profiles

-- strings.TrimPrefix
unfoldable pub trim_prefix : Text → Text → Text
trim_prefix s p = if has_prefix s p then drop (length p) s else s

-- ikuaiUserID
unfoldable pub ikuai_user_id : PolicyProfile → Text → Text
ikuai_user_id sso identity = bytes "SSO-" ++ trim_space identity
ikuai_user_id duo identity = bytes "Duo-" ++ trim_space identity
ikuai_user_id guest identity =
    bytes "Guest-"
    ++ trim_prefix (trim_prefix (trim_space identity) (bytes "guest-")) (bytes "Guest-")

-- firstNonEmpty, of a query's values.
unfoldable pub first_non_empty : (Text → Text) → List Text → Text
first_non_empty query [] = []
first_non_empty query (k ∷ ks) =
    let v = trim_space (query k) in
    let later = first_non_empty query ks in if is_empty v then later else v
