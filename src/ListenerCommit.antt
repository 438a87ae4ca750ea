-- ===== src/ListenerCommit.antt =====
-- portal/tls.go: `listenerCommit`, a change of the listener that rolls back unless it is confirmed.
-- Times are numbers of nanoseconds. A change is named by a number. A timer is armed, then its callback
-- starts at or after its time, then the callback gets the lock: between the last two, other calls may
-- come. `Stop` takes a timer out only before its callback starts.
pub mod Rollback
use wi_fi_roaming_with_i_kua.Prelude.{
  ℕ, ◌+◌, ◌*◌, ◌≤◌, ◌<◌, ◌≡◌, ◌≢◌, ◌⊎◌, inl, inr, refl, sym, Bool, true, false, List, [], ◌∷◌, ◌++◌,
  Option, none, some, if◌then◌else◌, arith,
}

-- listenerConfirmWindow
abbrev pub confirm_window : ℕ
confirm_window = 120 * 1_000_000_000

-- The fields, with the armed timer's time, how many started callbacks wait for the lock, and the
-- changes that were rolled back, the last one first.
pub record ListenerCommit : Type 0 where
  pub pending : Bool
  pub deadline : ℕ
  pub rollback : Option ℕ
  pub timer : Option ℕ
  pub waiting : ℕ
  pub rolled_back : List ℕ

abbrev pub new_listener_commit : ListenerCommit
new_listener_commit = record {
  pending = false;
  deadline = 0;
  rollback = none;
  timer = none;
  waiting = 0;
  rolled_back = [];
}

-- begin
unfoldable pub begin : ℕ → ℕ → ListenerCommit → ListenerCommit
begin now change l = record l {
  pending = true;
  deadline = now + confirm_window;
  rollback = some change;
  timer = some (now + confirm_window);
}

-- confirm
unfoldable pub confirm : ListenerCommit → ListenerCommit × Bool
confirm l =
    if l.pending
    then (record l { pending = false; timer = none; rollback = none }, true)
    else (l, false)

-- status
unfoldable pub status : ListenerCommit → Bool × ℕ
status l = (l.pending, l.deadline)

-- The callback, once it has the lock.
unfoldable pub expire : ListenerCommit → ListenerCommit
expire l =
    if l.pending
    then (record l {
      pending = false;
      rolled_back = elim l.rollback [ none ↦ l.rolled_back | some c ↦ c ∷ l.rolled_back ];
    })
    else l

-- What can happen besides `begin`, with the time it happens at.
pub data Step : ℕ → ListenerCommit → ListenerCommit → Type 0 where
  confirms : (now : ℕ) (l : ListenerCommit) → Step now l (confirm l).0
  starts :
      (now at : ℕ) (l : ListenerCommit)
      → l.timer ≡ some at
      → at ≤ now
      → Step now l (record l { timer = none; waiting = l.waiting + 1 })
  runs :
      (now waiting : ℕ) (l : ListenerCommit)
      → l.waiting ≡ waiting + 1
      → Step now l (record (expire l) { waiting = waiting })
