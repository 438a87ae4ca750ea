-- ===== src/LocalAdmin/Concurrent.antt =====
-- portal/localadmin.go: attempts that run beside each other. authenticateLocalAdmin reads the row,
-- checks the password and saves the whole row, without a lock or a transaction.
use wi_fi_roaming_with_i_kua.Prelude.{
  ℕ, suc, ◌+◌, ◌<◌, ◌≡◌, refl, Bool, true, false, List, [], ◌∷◌, some, length, arith,
}
use wi_fi_roaming_with_i_kua.Text.{Text}
use wi_fi_roaming_with_i_kua.Text.Laws.{text_eq_refl}
use wi_fi_roaming_with_i_kua.Maps.{lookup}
use wi_fi_roaming_with_i_kua.Maps.Laws.{lookup-put}
use wi_fi_roaming_with_i_kua.LocalAdmin.{
  max_failures, LocalAdmin, Accounts, is_locked, count_failure, check_account,
}
use wi_fi_roaming_with_i_kua.LocalAdmin.Lockout.{Attempt, wrong}

module _ (verify_password : List ℕ → Text → Bool) where
  -- The rest of attempts on one account that have all read its row already, in the order of their
  -- saves, and how many of them compared a wrong password.
  unfoldable pub finish_all : Text → LocalAdmin → List Attempt → Accounts → Accounts × ℕ
  finish_all name row [] t = (t, 0)
  finish_all name row (a ∷ l) t =
      let r = check_account verify_password false a.now name a.password row t in
      let rest = finish_all name row l r.0 in (rest.0, wrong r.1 + rest.1)

  -- The attempts come when the account is not locked, and do not know its password.
  abbrev pub Guessing : LocalAdmin → List Attempt → Type 0
  Guessing row [] = Unit {0}
  Guessing row (a ∷ l) =
      (is_locked a.now row.locked_until ≡ false)
      × (verify_password a.password row.password_hash ≡ false)
      × Guessing row l

  finish_one :
      (name : Text) (row : LocalAdmin) (a : Attempt) (t : Accounts)
      → row.enabled ≡ true
      → row.failed_attempts + 1 < max_failures
      → is_locked a.now row.locked_until ≡ false
      → verify_password a.password row.password_hash ≡ false
      → (wrong (check_account verify_password false a.now name a.password row t).1 ≡ 1)
        × (lookup name (check_account verify_password false a.now name a.password row t).0
            ≡ some (record row { failed_attempts = row.failed_attempts + 1 }))
  unfolding check_account count_failure
  finish_one name row a t on few free bad = (
    ground (arith, on, free, bad),
    ground (
      arith,
      on,
      free,
      bad,
      few,
      lookup-put name name (record row { failed_attempts = row.failed_attempts + 1 }) t,
      text_eq_refl name,
    ),
  )

  finish_rest :
      (name : Text) (row : LocalAdmin) (l : List Attempt) (t : Accounts)
      → row.enabled ≡ true
      → row.failed_attempts + 1 < max_failures
      → Guessing row l
      → lookup name t ≡ some (record row { failed_attempts = row.failed_attempts + 1 })
      → ((finish_all name row l t).1 ≡ length l)
        × (lookup name (finish_all name row l t).0
            ≡ some (record row { failed_attempts = row.failed_attempts + 1 }))
  unfolding finish_all
  finish_rest name row [] t on few g found = (refl, found)
  finish_rest name row (a ∷ l) t on few g found =
      let one = finish_one name row a t on few g.0 g.1 in
      let t' = (check_account verify_password false a.now name a.password row t).0 in
      let rest = finish_rest name row l t' on few g.2 one.1 in
      (ground (arith, one.0, rest.0), rest.1)

  -- Attempts on an account that is enabled, not locked and at least two failures below its limit, that all
  -- read its row before the first of them saves it, and do not know its password, compare every
  -- password they come with, however many they are, and together count as one failure.
  pub concurrent_guesses :
      (name : Text) (row : LocalAdmin) (a : Attempt) (l : List Attempt) (t : Accounts)
      → row.enabled ≡ true
      → row.failed_attempts + 1 < max_failures
      → Guessing row (a ∷ l)
      → ((finish_all name row (a ∷ l) t).1 ≡ suc (length l))
        × (lookup name (finish_all name row (a ∷ l) t).0
            ≡ some (record row { failed_attempts = row.failed_attempts + 1 }))
  unfolding finish_all
  concurrent_guesses name row a l t on few g =
      let one = finish_one name row a t on few g.0 g.1 in
      let t' = (check_account verify_password false a.now name a.password row t).0 in
      let rest = finish_rest name row l t' on few g.2 one.1 in
      (ground (arith, one.0, rest.0), rest.1)
