-- ===== src/Database.antt =====
-- What the calls of the database share: which of their statements fail, and transactions.
use wi_fi_roaming_with_i_kua.Prelude.{ℕ, ◌+◌, Bool, false, Option, none, some, if◌then◌else◌}

-- Which statements of a call fail, by their order in the call.
abbrev pub Faults : Type 0
Faults = ℕ → Bool

abbrev pub after_faults : ℕ → Faults → Faults
after_faults n fails i = fails (i + n)

abbrev pub no_faults : Faults
no_faults i = false

-- The end of a transaction on the state: an error rolls it back, and so does a commit that fails.
abbrev pub transaction {ℓ ℓ'} :
    {S : Type ℓ} {A : Type ℓ'} → Bool → S → Option (S × A) → S × Option A
transaction commit_fails s none = (s, none)
transaction commit_fails s (some (s', a)) = if commit_fails then (s, none) else (s', some a)
