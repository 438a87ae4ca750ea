-- ===== src/LocalAdmin/Lockout.antt =====
-- How many passwords of an account can be tried.
use wi_fi_roaming_with_i_kua.Prelude.{
  ℕ, ◌+◌, ◌-◌, ◌≤◌, ◌<◌, ◌≡◌, refl, sym, subst, ◌∙◌, Bool, true, false, List, [], ◌∷◌, none, some,
  if◌then◌else◌, leb, arith, Bool-cases, Option-cases, inl, inr,
}
use wi_fi_roaming_with_i_kua.Text.{Text, text_eq}
use wi_fi_roaming_with_i_kua.Text.Laws.{text_eq_iff, text_eq_refl}
use wi_fi_roaming_with_i_kua.Maps.{lookup}
use wi_fi_roaming_with_i_kua.Maps.Laws.{lookup-put}
use wi_fi_roaming_with_i_kua.LocalAdmin.{
  max_failures, lockout, LocalAdmin, Accounts, Outcome, account_name, is_locked, count_failure,
  count_login, check_account, authenticate_local_admin,
}

-- One request to sign in.
pub record Attempt : Type 0 where
  pub now : ℕ
  pub username : Text
  pub password : List ℕ

-- A password was compared and was wrong.
abbrev pub wrong : Outcome → ℕ
wrong Outcome.database_error = 0
wrong Outcome.invalid = 1
wrong Outcome.disabled = 0
wrong Outcome.locked = 0
wrong (Outcome.accepted name) = 0

-- How many wrong passwords are left to an account until a time.
abbrev pub budget : ℕ → LocalAdmin → ℕ
budget limit row = elim row.locked_until [
  | none ↦ max_failures - row.failed_attempts
  | some until ↦ if leb limit until then 0 else max_failures - row.failed_attempts
]

budget-le : (limit : ℕ) (row : LocalAdmin) → budget limit row ≤ max_failures
budget-le limit row = elim (Option-cases row.locked_until) [
  | inl e ↦ ground (arith, e)
  | inr (until, e) ↦ ground (arith, e)
]

module _ (verify_password : List ℕ → Text → Bool) where
  pub attempt : Attempt → Accounts → Accounts × Outcome
  attempt a t = authenticate_local_admin verify_password false false a.now a.username a.password t

  -- How many passwords are compared with the account's in vain.
  pub guesses : Text → List Attempt → Accounts → ℕ
  guesses name [] t = 0
  guesses name (a ∷ l) t =
      (if text_eq (account_name a.username) name then wrong (attempt a t).1 else 0)
      + guesses name l (attempt a t).0

  -- The attempts lie in a window, and none on the account knows its password.
  abbrev pub Guessing : ℕ → ℕ → Text → Text → List Attempt → Type 0
  Guessing first limit name hash [] = Unit {0}
  Guessing first limit name hash (a ∷ l) =
      (first ≤ a.now)
      × (a.now < limit)
      × (text_eq (account_name a.username) name ≡ true → verify_password a.password hash ≡ false)
      × Guessing first limit name hash l

  check_other :
      (now : ℕ) (own name : Text) (password : List ℕ) (row : LocalAdmin) (t : Accounts)
      → text_eq own name ≡ false
      → lookup name (check_account verify_password false now own password row t).0 ≡ lookup name t
  unfolding check_account
  check_other now own name password row t ne = ground (
    arith,
    ne,
    lookup-put own name (count_failure now row) t,
    lookup-put own name (count_login now row) t,
  )

  -- What an attempt on an account leaves of its budget.
  record Spends (limit : ℕ) (name : Text) (row : LocalAdmin) (r : Accounts × Outcome) : Type 0 where
    after : LocalAdmin
    found : lookup name r.0 ≡ some after
    same_hash : after.password_hash ≡ row.password_hash
    few : after.failed_attempts < max_failures
    spent : wrong r.1 + budget limit after ≤ budget limit row

  budget-count_failure :
      (limit now : ℕ) (row : LocalAdmin)
      → limit ≤ now + lockout
      → now < limit
      → row.failed_attempts < max_failures
      → is_locked now row.locked_until ≡ false
      → 1 + budget limit (count_failure now row) ≤ budget limit row
  unfolding count_failure is_locked
  budget-count_failure limit now row window early few free = elim (Option-cases row.locked_until) [
    | inl e ↦ ground (arith, e)
    | inr (until, e) ↦ ground (arith, e, free)
  ]

  check_own :
      (limit now : ℕ) (name : Text) (password : List ℕ) (row : LocalAdmin) (t : Accounts)
      → limit ≤ now + lockout
      → now < limit
      → verify_password password row.password_hash ≡ false
      → lookup name t ≡ some row
      → row.failed_attempts < max_failures
      → Spends limit name row (check_account verify_password false now name password row t)
  unfolding check_account count_failure
  check_own limit now name password row t window early bad found few =
      elim (Bool-cases row.enabled) [
        | inr e ↦ record {
          after = row;
          found = ground (arith, e, found);
          same_hash = refl;
          few = few;
          spent = ground (arith, e);
        }
        | inl e ↦ elim (Bool-cases (is_locked now row.locked_until)) [
          | inl k ↦ record {
            after = row;
            found = ground (arith, e, k, found);
            same_hash = refl;
            few = few;
            spent = ground (arith, e, k);
          }
          | inr k ↦ record {
            after = count_failure now row;
            found = ground (
              arith,
              e,
              k,
              bad,
              lookup-put name name (count_failure now row) t,
              text_eq_refl name,
            );
            same_hash = ground arith;
            few = ground (arith, few);
            spent =
                ground (arith, e, k, bad, budget-count_failure limit now row window early few k);
          }
        ]
      ]

  other_account :
      (a : Attempt) (name : Text) (t : Accounts)
      → text_eq (account_name a.username) name ≡ false
      → lookup name (attempt a t).0 ≡ lookup name t
  unfolding attempt authenticate_local_admin
  other_account a name t ne = elim (Option-cases (lookup (account_name a.username) t)) [
    | inl e ↦ ground (arith, e)
    | inr (row, e) ↦
        ground (arith, e, check_other a.now (account_name a.username) name a.password row t ne)
  ]

  own_account :
      (limit : ℕ) (a : Attempt) (name : Text) (t : Accounts) (row : LocalAdmin)
      → limit ≤ a.now + lockout
      → a.now < limit
      → account_name a.username ≡ name
      → verify_password a.password row.password_hash ≡ false
      → lookup name t ≡ some row
      → row.failed_attempts < max_failures
      → Spends limit name row (attempt a t)
  unfolding attempt authenticate_local_admin
  own_account limit a name t row window early same bad found few =
      subst (Spends limit name row) (ground (arith, same, found))
        (check_own limit a.now name a.password row t window early bad found few)

  guesses_left :
      (l : List Attempt) (first : ℕ) (name : Text) (t : Accounts) (row : LocalAdmin)
      → Guessing first (first + lockout) name row.password_hash l
      → lookup name t ≡ some row
      → row.failed_attempts < max_failures
      → guesses name l t ≤ budget (first + lockout) row
  unfolding guesses
  guesses_left [] first name t row g found few = omega arith
  guesses_left (a ∷ l) first name t row g found few =
      elim (Bool-cases (text_eq (account_name a.username) name)) [
        | inr e ↦ ground (
          arith,
          e,
          guesses_left l first name (attempt a t).0 row g.3 (other_account a name t e ∙ found) few,
        )
        | inl e ↦
            let s =
              own_account (first + lockout) a name t row (omega (arith, g.0)) g.1
                ((text_eq_iff (account_name a.username) name).0 e) (g.2 e) found few in
            let known =
              subst (λ h. Guessing first (first + lockout) name h l) (sym s.same_hash) g.3 in
            ground (
              arith,
              e,
              s.spent,
              guesses_left l first name (attempt a t).0 s.after known s.found s.few,
            )
      ]

  -- Of attempts that run one after another, each reading the accounts when the one before it has
  -- saved them, at most ten compare a wrong password with an account's within any window of the
  -- lockout's length, however many attempts there are, under whatever spellings of its name, and
  -- with attempts on other accounts in between, if the account is there with fewer failures than
  -- the limit, every statement works, and none of the attempts knows the password.
  pub guesses_bounded :
      (l : List Attempt) (first : ℕ) (name : Text) (t : Accounts) (row : LocalAdmin)
      → Guessing first (first + lockout) name row.password_hash l
      → lookup name t ≡ some row
      → row.failed_attempts < max_failures
      → guesses name l t ≤ max_failures
  guesses_bounded l first name t row g found few =
      omega (arith, guesses_left l first name t row g found few, budget-le (first + lockout) row)
