-- ===== src/GuestCodes/Counts.antt =====
-- The numbers and the pages that the admin pages show.
use wi_fi_roaming_with_i_kua.Prelude.{
  ℕ, ◌+◌, ◌<◌, ◌≡◌, refl, sym, ap, ◌∙◌, Bool, false, ◌&&◌, not, List, [], ◌∷◌, ◌++◌, length, select,
  count, take, drop, arith, zero, suc,
}
use wi_fi_roaming_with_i_kua.Text.{Text, text_eq}
use wi_fi_roaming_with_i_kua.Database.{no_faults}
use wi_fi_roaming_with_i_kua.GuestCodes.Rows.{CodeRow, UseRow, Tables, row_expired, row_exhausted}
use wi_fi_roaming_with_i_kua.GuestCodes.Queries.{
  CodeQuery, code_status_where, active_count, stats, order_codes, with_uses, apply_code_query,
  page_of, page,
}

-- Three tests that split a list: the expired, the exhausted of the others, and the rest.
count-partition {ℓ} :
    {A : Type ℓ} (p q : A → Bool) (l : List A)
    → count (λ x. not (p x) && not (q x)) l + count p l + count (λ x. not (p x) && q x) l ≡ length l
count-partition p q [] = omega arith
count-partition p q (x ∷ l) = ground (arith, count-partition p q l)

-- With every statement succeeding, the three counters of the header add up to the total, which is
-- that of all codes, and the counter of unused codes is the dashboard's count of active ones.
pub stats_partition :
    (now : ℕ) (t : Tables)
    → ((stats no_faults now t).used
          + (stats no_faults now t).unused
          + (stats no_faults now t).expired
        ≡ (stats no_faults now t).total)
      × ((stats no_faults now t).total ≡ length t.codes)
      × ((stats no_faults now t).unused ≡ active_count false now t)
unfolding stats active_count code_status_where text_eq
stats_partition now t =
    let h = count-partition (row_expired now) (row_exhausted t.uses) t.codes in
    (omega (arith, h), refl, omega (arith, h))

take-nil {ℓ} : {A : Type ℓ} (n : ℕ) → take {A = A} n [] ≡ []
take-nil zero = refl
take-nil (suc n) = refl

drop-nil {ℓ} : {A : Type ℓ} (n : ℕ) → drop {A = A} n [] ≡ []
drop-nil zero = refl
drop-nil (suc n) = refl

suc-add : (n m : ℕ) → suc n + m ≡ suc (n + m)
suc-add n m = omega arith

take-append_drop {ℓ} :
    {A : Type ℓ} (n m : ℕ) (l : List A) → take n l ++ take m (drop n l) ≡ take (n + m) l
take-append_drop zero m l = ap (λ k. take k l) (omega arith)
take-append_drop {A = A} (suc n) m [] = take-nil {A = A} m ∙ sym (take-nil {A = A} (suc n + m))
take-append_drop (suc n) m (x ∷ l) = rw (suc-add n m) (ap (λ k. x ∷ k) (take-append_drop n m l))

drop-drop {ℓ} : {A : Type ℓ} (i n : ℕ) (l : List A) → drop (i + n) l ≡ drop n (drop i l)
drop-drop zero n l = ap (λ k. drop k l) (omega arith)
drop-drop {A = A} (suc i) n [] = drop-nil {A = A} (suc i + n) ∙ sym (drop-nil {A = A} n)
drop-drop (suc i) n (x ∷ l) = rw (suc-add i n) (drop-drop i n l)

take-drop-append {ℓ} :
    {A : Type ℓ} (i n m : ℕ) (l : List A)
    → take n (drop i l) ++ take m (drop (i + n) l) ≡ take (n + m) (drop i l)
take-drop-append i n m l = rw (drop-drop i n l) (take-append_drop n m (drop i l))

with_uses-append :
    (fails : Bool) (uses : List UseRow) (rows more : List CodeRow)
    → with_uses fails uses (rows ++ more) ≡ with_uses fails uses rows ++ with_uses fails uses more
unfolding with_uses
with_uses-append fails uses [] more = refl
with_uses-append fails uses (r ∷ rows) more = ground (arith, with_uses-append fails uses rows more)

module _ (like : Text → Text → Bool) where
  page_of-append :
      (i n m : ℕ) (f : CodeQuery) (rows : List CodeRow)
      → 0 < n
      → 0 < m
      → page_of like (record f { offset = i; limit = n }) rows
          ++ page_of like (record f { offset = i + n; limit = m }) rows
        ≡ page_of like (record f { offset = i; limit = n + m }) rows
  page_of-append i n m f rows hn hm = ground (arith, take-drop-append i n m rows)

  -- Consecutive pages of a query make up the longer page: no code is on both, and none is left out
  -- between them.
  pub page-append :
      (now i n m : ℕ) (f : CodeQuery) (t : Tables)
      → 0 < n
      → 0 < m
      → (page like no_faults now (record f { offset = i; limit = n }) t).0
          ++ (page like no_faults now (record f { offset = i + n; limit = m }) t).0
        ≡ (page like no_faults now (record f { offset = i; limit = n + m }) t).0
  unfolding page apply_code_query
  page-append now i n m f t hn hm =
      let rows = order_codes (select (apply_code_query like f now t.uses) t.codes) in
      sym (with_uses-append false t.uses _ _)
      ∙ ap (with_uses false t.uses) (page_of-append i n m f rows hn hm)
