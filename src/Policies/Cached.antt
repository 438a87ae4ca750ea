-- ===== src/Policies/Cached.antt =====
-- The cache against the table, and what a policy reads as after it was set.
use wi_fi_roaming_with_i_kua.Prelude.{◌≡◌, refl, false, none, some, if◌then◌else◌, arith}
use wi_fi_roaming_with_i_kua.Text.{Text, bytes, text_eq, trim_space, to_lower}
use wi_fi_roaming_with_i_kua.Maps.Laws.{lookup-put}
use wi_fi_roaming_with_i_kua.Database.{Faults, no_faults}
use wi_fi_roaming_with_i_kua.Config.{RouterPolicy, PolicyDefaults}
use wi_fi_roaming_with_i_kua.Policies.{
  PolicyProfile, sso, duo, guest, profile_name, parse_profile, validate_policy, normalize_policy,
  PolicyStore, refresh_policies, get_policy, set_policy,
}

-- The cache holds what the table does.
abbrev pub IsFresh : PolicyStore → Type 0
IsFresh s = s.cache ≡ some s.table

parse_profile-name : (q : PolicyProfile) → parse_profile (profile_name q) ≡ some q
unfolding parse_profile profile_name text_eq trim_space to_lower
parse_profile-name sso = refl
parse_profile-name duo = refl
parse_profile-name guest = refl

normal_form :
    (q : PolicyProfile) (p : RouterPolicy)
    → (if text_eq (profile_name q) (bytes "guest")
        then normalize_policy guest p
        else normalize_policy sso p)
      ≡ normalize_policy q p
unfolding profile_name normalize_policy text_eq
normal_form sso p = refl
normal_form duo p = refl
normal_form guest p = refl

-- Setting a policy, whether it fails or not, leaves a cache that holds what the table does, unless the
-- row was written and the cache could not be loaded again.
pub set_policy-IsFresh :
    (fails : Faults) (name : Text) (p : RouterPolicy) (s : PolicyStore)
    → fails 1 ≡ false
    → IsFresh s
    → IsFresh (set_policy fails name p s).0
unfolding set_policy refresh_policies
set_policy-IsFresh fails name p s e h = ground (arith, e, h)

-- On an instance whose cache holds what the table does, a valid policy that is set, while the
-- statements work, is what its profile reads, trimmed and for guests without a timeout, and the other
-- profiles read as before.
pub get_policy-set_policy :
    (d : PolicyDefaults) (q r : PolicyProfile) (p : RouterPolicy) (s : PolicyStore)
    → validate_policy p ≡ none
    → IsFresh s
    → get_policy d (set_policy no_faults (profile_name q) p s).0 r ≡ (
        if text_eq (profile_name q) (profile_name r)
        then normalize_policy q p
        else get_policy d s r)
unfolding set_policy refresh_policies get_policy
get_policy-set_policy d q r p s valid h = ground (
  arith,
  valid,
  h,
  parse_profile-name q,
  normal_form q p,
  lookup-put (profile_name q) (profile_name r) (normalize_policy q p) s.table,
)
