-- ===== src/LocalAdmin.antt =====
-- portal/localadmin.go: the accounts of local administrators and the check of a password. Hashing and
-- verifying a password, by Argon2id, are parameters. Times are numbers of nanoseconds. Each call takes
-- which of its statements fail.
pub mod Lockout
pub mod Concurrent
pub mod Login
use wi_fi_roaming_with_i_kua.Prelude.{
  ℕ, ◌+◌, ◌*◌, Bool, true, false, not, List, [], ◌∷◌, Option, none, some, length, if◌then◌else◌,
  ltb, leb,
}
use wi_fi_roaming_with_i_kua.Text.{Text, is_empty, to_lower, trim_space}
use wi_fi_roaming_with_i_kua.Maps.{Map, lookup, has_key, put, delete}

-- localAdminMaxFailures
abbrev pub max_failures : ℕ
max_failures = 10

-- localAdminLockout
abbrev pub lockout : ℕ
lockout = 900 * 1_000_000_000

-- dbstore.LocalAdmin, by the username.
pub record LocalAdmin : Type 0 where
  pub password_hash : Text
  pub enabled : Bool
  pub created_at : ℕ
  pub last_login_at : Option ℕ
  pub failed_attempts : ℕ
  pub locked_until : Option ℕ

abbrev pub Accounts : Type 0
Accounts = Map LocalAdmin

pub data Outcome : Type 0 where
  database_error : Outcome
  invalid : Outcome
  disabled : Outcome
  locked : Outcome
  accepted : Text → Outcome

unfoldable pub account_name : Text → Text
unfolding to_lower trim_space
account_name username = to_lower (trim_space username)

-- `row.LockedUntil != nil && time.Now().Before(*row.LockedUntil)`
unfoldable pub is_locked : ℕ → Option ℕ → Bool
is_locked now none = false
is_locked now (some until) = ltb now until

-- The row after a wrong password.
unfoldable pub count_failure : ℕ → LocalAdmin → LocalAdmin
count_failure now row =
    if leb max_failures (row.failed_attempts + 1)
    then record row { locked_until = some (now + lockout); failed_attempts = 0 }
    else record row { failed_attempts = row.failed_attempts + 1 }

-- The row after the right password.
unfoldable pub count_login : ℕ → LocalAdmin → LocalAdmin
count_login now row = record row {
  failed_attempts = 0;
  locked_until = none;
  last_login_at = some now;
}

-- deleteLocalAdmin, whether a row was affected.
unfoldable pub delete_local_admin : Bool → Text → Accounts → Accounts × Bool
unfolding account_name delete has_key
delete_local_admin fails username t =
    let name = account_name username in
    if fails then (t, false) else (delete name t, has_key name t)

-- createLocalAdmin; the password is its runes, and `hash_password` may fail. `false` is an error.
unfoldable pub create_local_admin :
    (List ℕ → Option Text) → Bool → ℕ → Text → List ℕ → Accounts → Accounts × Bool
unfolding account_name is_empty put
create_local_admin hash_password fails now username password t =
    let name = account_name username in
    let saved : Accounts × Bool = elim (hash_password password) [
      | none ↦ (t, false)
      | some hash ↦ if fails then (t, false) else (
        put name
            (record {
              password_hash = hash;
              enabled = true;
              created_at = now;
              last_login_at = none;
              failed_attempts = 0;
              locked_until = none;
            })
            t,
        true,
      )
    ] in
    if is_empty name then (t, false) else if ltb (length password) 12 then (t, false) else saved

module _ (verify_password : List ℕ → Text → Bool) where
  -- The end of authenticateLocalAdmin, for an account that is there.
  unfoldable pub check_account :
      Bool → ℕ → Text → List ℕ → LocalAdmin → Accounts → Accounts × Outcome
  unfolding is_locked count_failure count_login put
  check_account save_fails now name password row t =
      let after_failure = if save_fails then t else put name (count_failure now row) t in
      let after_login = if save_fails then t else put name (count_login now row) t in
      if not row.enabled
      then (t, Outcome.disabled)
      else if is_locked now row.locked_until
      then (t, Outcome.locked)
      else if not (verify_password password row.password_hash)
      then (after_failure, Outcome.invalid)
      else (after_login, Outcome.accepted name)

  -- authenticateLocalAdmin, with no other call between its two statements: one finds the account, the
  -- other saves it.
  unfoldable pub authenticate_local_admin :
      Bool → Bool → ℕ → Text → List ℕ → Accounts → Accounts × Outcome
  authenticate_local_admin find_fails save_fails now username password t =
      let name = account_name username in
      let found : Accounts × Outcome = elim (lookup name t) [
        | none ↦ (t, Outcome.invalid)
        | some row ↦ check_account save_fails now name password row t
      ] in
      if find_fails then (t, Outcome.database_error) else found
