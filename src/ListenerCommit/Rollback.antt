-- ===== src/ListenerCommit/Rollback.antt =====
-- Which listener changes are rolled back, and when.
use wi_fi_roaming_with_i_kua.Prelude.{
  ℕ, suc, ◌+◌, ◌≤◌, ◌<◌, ◌≡◌, ◌≢◌, ◌⊎◌, inl, inr, refl, ◌∙◌, true, false, none, some, if◌then◌else◌,
  arith, length, Bool-cases,
}
use wi_fi_roaming_with_i_kua.ListenerCommit.{
  confirm_window, ListenerCommit, new_listener_commit, begin, confirm, expire, Step, confirms,
  starts, runs,
}

-- A run from the start, and how many changes it began.
pub data Run : ℕ → ListenerCommit → Type 0 where
  start : Run 0 new_listener_commit
  began : {n : ℕ} {l : ListenerCommit} (now change : ℕ) → Run n l → Run (suc n) (begin now change l)
  other : {n : ℕ} {l l' : ListenerCommit} (now : ℕ) → Run n l → Step now l l' → Run n l'

-- A pending change has a rollback, which an armed timer or a started callback will run.
pub record IsArmed (l : ListenerCommit) : Type 0 where
  pub has_rollback : l.pending ≡ true → l.rollback ≢ none
  pub will_run : l.pending ≡ true → (l.timer ≡ some l.deadline) ⊎ (0 < l.waiting)

confirm-IsArmed : (l : ListenerCommit) → IsArmed l → IsArmed (confirm l).0
unfolding confirm
confirm-IsArmed l h = record {
  has_rollback = ground (arith, h.has_rollback);
  will_run = ground (arith, h.will_run);
}

-- One pending change at most, counted with the rollbacks.
abbrev pub settled : ListenerCommit → ℕ
settled l = length l.rolled_back + (if l.pending then 1 else 0)

settled-confirm : (l : ListenerCommit) → settled (confirm l).0 ≤ settled l
unfolding confirm
settled-confirm l = ground arith

settled-expire : (l : ListenerCommit) → settled (expire l) ≤ settled l
unfolding expire
settled-expire l = ground arith

not_pending-expire : (l : ListenerCommit) → (expire l).pending ≡ false
unfolding expire
not_pending-expire l = ground arith

-- Whatever order the calls and the timers come in: a pending change is always one that an armed timer
-- or a started callback will roll back, so none is kept unconfirmed; and there are no more rollbacks
-- than changes begun.
pub rollback-IsArmed : (n : ℕ) (l : ListenerCommit) → Run n l → IsArmed l × (settled l ≤ n)
unfolding begin
rollback-IsArmed _ _ start = (
  record { has_rollback = λ e. ground (arith, e); will_run = λ e. ground (arith, e) },
  omega arith,
)
rollback-IsArmed _ _ (began {n} {l} now change r) =
    let h = rollback-IsArmed n l r in
    (
      record { has_rollback = λ _ e. ground (arith, e); will_run = λ _. inl refl },
      ground (arith, h.1),
    )
rollback-IsArmed _ _ (other _ r (confirms now l)) =
    let h = rollback-IsArmed _ l r in (confirm-IsArmed l h.0, omega (arith, h.1, settled-confirm l))
rollback-IsArmed _ _ (other _ r (starts now at l armed late)) =
    let h = rollback-IsArmed _ l r in
    (record { has_rollback = h.0.has_rollback; will_run = λ _. inr (omega arith) }, h.1)
rollback-IsArmed _ _ (other _ r (runs now waiting l waits)) =
    let h = rollback-IsArmed _ l r in
    let done = not_pending-expire l in
    (
      record {
        has_rollback = λ e. absurd (ground (arith, e, done));
        will_run = λ e. absurd (ground (arith, e, done));
      },
      omega (arith, h.1, settled-expire l),
    )

-- Steps that all come before a time, none of which begins a change.
pub data Before (limit : ℕ) : ListenerCommit → ListenerCommit → Type 0 where
  stays : (l : ListenerCommit) → Before limit l l
  then_step :
      {l l' l'' : ListenerCommit} (now : ℕ)
      → now < limit
      → Step now l l'
      → Before limit l' l''
      → Before limit l l''

-- No callback has started, and none can before the time.
record IsQuiet (limit : ℕ) (l : ListenerCommit) : Type 0 where
  no_callback : l.waiting ≡ 0
  timer_late : (at : ℕ) → l.timer ≡ some at → limit ≤ at

confirm-late :
    (limit : ℕ) (l : ListenerCommit)
    → IsQuiet limit l
    → (at : ℕ) → (confirm l).0.timer ≡ some at
    → limit ≤ at
unfolding confirm
confirm-late limit l h at e = elim (Bool-cases l.pending) [
  | inl p ↦ ground (arith, p, e)
  | inr p ↦ h.timer_late at (ground (arith, p, e))
]

IsQuiet-kept :
    (limit now : ℕ) (l l' : ListenerCommit)
    → now < limit
    → Step now l l'
    → IsQuiet limit l
    → IsQuiet limit l' × (l'.rolled_back ≡ l.rolled_back)
unfolding confirm
IsQuiet-kept limit _ _ _ early (confirms now l) h = (
  record { no_callback = ground (arith, h.no_callback); timer_late = confirm-late limit l h },
  ground arith,
)
IsQuiet-kept limit _ _ _ early (starts now at l armed late) h =
    absurd (omega (arith, h.timer_late at armed))
IsQuiet-kept limit _ _ _ early (runs now waiting l waits) h = absurd (omega (arith, h.no_callback))

quiet :
    (limit : ℕ) (l l' : ListenerCommit)
    → Before limit l l'
    → IsQuiet limit l
    → l'.rolled_back ≡ l.rolled_back
quiet limit _ _ (stays l) h = refl
quiet limit _ _ (then_step {l} {l'} {l''} now early s b) h =
    let k = IsQuiet-kept limit now l l' early s h in quiet limit l' l'' b k.0 ∙ k.1

-- If no callback of an older timer has started when a change begins, the change is not rolled back
-- before its window is over, whatever else happens, unless another change begins.
pub window_kept :
    (now change : ℕ) (l l' : ListenerCommit)
    → l.waiting ≡ 0
    → Before (now + confirm_window) (begin now change l) l'
    → l'.rolled_back ≡ l.rolled_back
unfolding begin
window_kept now change l l' none_waits b =
    quiet (now + confirm_window) (begin now change l) l' b
      (record { no_callback = none_waits; timer_late = λ at e. ground (arith, e) })
