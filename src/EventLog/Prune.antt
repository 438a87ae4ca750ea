-- ===== src/EventLog/Prune.antt =====
-- portal/store_eventlog.go: the sweep, batch by batch.
use wi_fi_roaming_with_i_kua.Prelude.{
  ℕ, zero, suc, ◌+◌, ◌*◌, ◌≤◌, ◌≡◌, refl, ap, sym, ◌∙◌, subst, Bool, true, List, arith, length,
  take, select, count, ltb, ◌==◌, of_branches,
}
use native.Mathlib.Nat.{suc-mul, mul-zero}
use wi_fi_roaming_with_i_kua.Database.{Faults, no_faults, after_faults}
use wi_fi_roaming_with_i_kua.Numbers.{pos}
use wi_fi_roaming_with_i_kua.EventLog.{
  EventRow, has_id, delete_ids, ids_of, prune_loop, prune, prune_batch, prune_max_batches, is_past,
}
use wi_fi_roaming_with_i_kua.EventLog.Batches.{
  is_ordered, fresh, fresh_all, count-delete_ids, rest_fresh, rest_ordered, rest_count,
}

-- What a sweep ends with, whatever fails: no event inside the retention is gone, and the number it
-- returns is how many rows are gone.
abbrev pub IsSwept : (EventRow → Bool) → List EventRow → ℕ → List EventRow × ℕ → Type 0
IsSwept past rows deleted r =
    (fresh past r.0 ≡ fresh past rows) × (r.1 + length r.0 ≡ deleted + length rows)

prune_loop-IsSwept :
    (fails : Faults) (past : EventRow → Bool) (batch n k : ℕ) (rows : List EventRow) (deleted : ℕ)
    → is_ordered k rows ≡ true
    → IsSwept past rows deleted (prune_loop fails past batch n rows deleted)
unfolding prune_loop
prune_loop-IsSwept fails past batch zero k rows deleted h = (refl, refl)
prune_loop-IsSwept fails past batch (suc n) k rows deleted h =
    let ids = ids_of (take batch (select past rows)) in
    let rest = delete_ids ids rows in
    let gone = count (λ r. has_id r.id ids) rows in
    let same = rest_fresh past batch k rows h in
    let counted = count-delete_ids ids rows in
    let (kept, total) =
      prune_loop-IsSwept (after_faults 2 fails) past batch n k rest (deleted + gone)
        (rest_ordered past batch k rows h) in
    let P = IsSwept past rows deleted in
    of_branches P (fails 0) (λ _. (refl, refl))
      (λ _.
        of_branches P (length ids == 0) (λ _. (refl, refl))
          (λ _.
            of_branches P (fails 1) (λ _. (refl, refl))
              (λ _.
                of_branches P (ltb (length ids) batch) (λ _. (same, omega (arith, counted)))
                  (λ _. (kept ∙ same, omega (arith, total, counted))))))

no_batch : (n batch : ℕ) → batch ≡ 0 → n * batch ≡ 0
no_batch n batch e = ap (λ b. n * b) e ∙ mul-zero n

prune_loop-fresh :
    (past : EventRow → Bool) (batch n k : ℕ) (rows : List EventRow) (deleted : ℕ)
    → is_ordered k rows ≡ true
    → count past rows ≤ n * batch
    → (prune_loop no_faults past batch n rows deleted).0 ≡ fresh past rows
unfolding prune_loop
prune_loop-fresh past batch zero k rows deleted h le = sym (fresh_all past rows (omega (arith, le)))
prune_loop-fresh past batch (suc n) k rows deleted h le =
    let ids = ids_of (take batch (select past rows)) in
    let rest = delete_ids ids rows in
    let gone = count (λ r. has_id r.id ids) rows in
    let (left, taken) = rest_count past batch k rows h in
    let le' : count past rows ≤ n * batch + batch =
      subst (λ m. count past rows ≤ m) (suc-mul n batch) le in
    let same = rest_fresh past batch k rows h in
    let P : List EventRow × ℕ → Type 0 = (λ r. r.0 ≡ fresh past rows) in
    of_branches P (length ids == 0)
      (λ e. sym (fresh_all past rows (ground (arith, e, taken, le', no_batch n batch))))
      (λ _.
        of_branches P (ltb (length ids) batch)
          (λ e. sym (fresh_all past rest (ground (arith, e, left, taken))) ∙ same)
          (λ _.
            prune_loop-fresh past batch n k rest (deleted + gone) (rest_ordered past batch k rows h)
              (omega (arith, left, le'))
            ∙ same))

-- A sweep with a retention whose statements work, over a table in the order of its ids with no more
-- past events than its batches can take, leaves exactly the events inside the retention and returns
-- how many are gone.
pub prune-fresh :
    (now retention k : ℕ) (rows : List EventRow)
    → is_ordered k rows ≡ true
    → count (is_past now (suc retention)) rows ≤ prune_max_batches * prune_batch
    → ((prune no_faults now (pos (suc retention)) rows).0
        ≡ fresh (is_past now (suc retention)) rows)
      × ((prune no_faults now (pos (suc retention)) rows).1
            + length (prune no_faults now (pos (suc retention)) rows).0
          ≡ length rows)
unfolding prune
prune-fresh now retention k rows h le =
    let past = is_past now (suc retention) in
    let swept = prune_loop-IsSwept no_faults past prune_batch prune_max_batches k rows 0 h in
    (prune_loop-fresh past prune_batch prune_max_batches k rows 0 h le, omega (arith, swept.1))

-- Whatever statements of a sweep fail, it removes no event inside the retention, and returns how many
-- are gone.
pub prune-IsSwept :
    (fails : Faults) (now retention k : ℕ) (rows : List EventRow)
    → is_ordered k rows ≡ true
    → IsSwept (is_past now (suc retention)) rows 0 (prune fails now (pos (suc retention)) rows)
unfolding prune
prune-IsSwept fails now retention k rows h =
    prune_loop-IsSwept fails (is_past now (suc retention)) prune_batch prune_max_batches k rows 0 h
