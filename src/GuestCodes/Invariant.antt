-- ===== src/GuestCodes/Invariant.antt =====
-- Every call of the guest-code store keeps the tables valid.
use wi_fi_roaming_with_i_kua.Prelude.{
  ℕ, ◌≡◌, ◌≢◌, refl, sym, ap, subst, Bool, true, false, ◌||◌, List, [], ◌∷◌, ◌++◌, map, Option,
  none, some, length, ◌==◌, arith, of_branches, Option-cases, inl, inr,
}
use wi_fi_roaming_with_i_kua.Text.{Text, text_eq, is_empty, contains}
use wi_fi_roaming_with_i_kua.Text.Laws.{text_eq_refl}
use wi_fi_roaming_with_i_kua.Database.{Faults, after_faults, transaction}
use wi_fi_roaming_with_i_kua.GuestCodes.Rows.{
  CodeRow, CodeUse, Tables, GuestCode, normalize_code, nullable, to_row, find_row,
}
use wi_fi_roaming_with_i_kua.GuestCodes.Store.{
  committed, keys_of, conflicts, use_row, insert_code, add, note_added, add_from, added_codes,
  add_many, delete, delete_many, edit_row, edit, delete_inactive, validate,
}
use wi_fi_roaming_with_i_kua.GuestCodes.Redemption.{validate_cases}
use wi_fi_roaming_with_i_kua.GuestCodes.Valid.{
  RowIsValid, Owned, IsValid, Rows-append, Owned-more, Owned-append, owned-append_new,
  delete_rows-IsValid, Keeps, Rows-map, Owned-map, find_row-owned,
}

nullable_ne : (t : ℕ) → nullable t ≢ some 0
nullable_ne t = ground arith

to_row-RowIsValid : (now : ℕ) (c : GuestCode) → RowIsValid (to_row now c)
unfolding to_row
to_row-RowIsValid now c = (refl, nullable_ne c.expires_at)

conflicts-find_row :
    (row : CodeRow) (rows : List CodeRow)
    → conflicts row rows ≡ false
    → find_row row.code_lower rows ≡ none
unfolding conflicts find_row
conflicts-find_row row [] h = refl
conflicts-find_row row (r ∷ rows) h = ground (arith, conflicts-find_row row rows, h)

Owned-use_row :
    (now : ℕ) (codes : List CodeRow) (row : CodeRow) (uses : List CodeUse)
    → Owned (codes ++ row ∷ []) (map (use_row now row.code) uses)
unfolding use_row
Owned-use_row now codes row [] = tt
Owned-use_row now codes row (u ∷ uses) =
    (owned-append_new codes row (use_row now row.code u) refl, Owned-use_row now codes row uses)

-- What an outcome leaves, if it is no error, is valid.
abbrev pub Leaves {ℓ} : {A : Type ℓ} → Option (Tables × A) → Type 0
Leaves none = Unit {0}
Leaves (some (t, a)) = IsValid t

insert_code-IsValid :
    (fails : Faults) (now : ℕ) (c : GuestCode) (t : Tables)
    → IsValid t
    → Leaves (insert_code fails now c t)
unfolding insert_code
insert_code-IsValid fails now c t h =
    let row = to_row now c in
    let rows = λ (e : conflicts row t.codes ≡ false).
      Rows-append t.codes row h.rows (to_row-RowIsValid now c) (conflicts-find_row row t.codes e) in
    let owners = Owned-more t.codes (row ∷ []) t.uses h.owners in
    of_branches Leaves (fails 0) (λ _. tt)
      (λ _.
        of_branches Leaves (conflicts row t.codes) (λ _. h)
          (λ fresh.
            of_branches Leaves (length c.uses == 0)
              (λ _. record { rows = rows fresh; owners = owners })
              (λ _.
                of_branches Leaves (fails 1) (λ _. tt)
                  (λ _. record {
                    rows = rows fresh;
                    owners =
                        Owned-append (t.codes ++ row ∷ []) t.uses _ owners
                          (Owned-use_row now t.codes row c.uses);
                  }))))

transaction-IsValid {ℓ} :
    {A : Type ℓ} (fails : Bool) (t : Tables) (o : Option (Tables × A))
    → IsValid t
    → Leaves o
    → IsValid (transaction fails t o).0
transaction-IsValid fails t none h k = h
transaction-IsValid true t (some (t', a)) h k = h
transaction-IsValid false t (some (t', a)) h k = k

committed-IsValid : (r : Tables × Option Bool) → IsValid r.0 → IsValid (committed r).0
committed-IsValid (t, none) h = h
committed-IsValid (t, some b) h = h

added_codes-IsValid : (r : Tables × Option (List Text)) → IsValid r.0 → IsValid (added_codes r).0
added_codes-IsValid (t, none) h = h
added_codes-IsValid (t, some b) h = h

pub add-IsValid :
    (fails : Faults) (now : ℕ) (c : GuestCode) (t : Tables)
    → IsValid t
    → IsValid (add fails now c t).0
unfolding add
add-IsValid fails now c t h =
    of_branches (λ (r : Tables × Bool). IsValid r.0) (is_empty (normalize_code c.code)) (λ _. h)
      (λ _. committed-IsValid (transaction (fails 2) t (insert_code fails now c t)) (
        transaction-IsValid (fails 2) t (insert_code fails now c t) h
          (insert_code-IsValid fails now c t h)))

note_added-Leaves :
    (b : Bool) (code : Text) (o : Option (Tables × List Text))
    → Leaves o
    → Leaves (note_added b code o)
note_added-Leaves b code none h = tt
note_added-Leaves b code (some (t, added)) h = h

add_from-Leaves :
    (cs : List GuestCode) (fails : Faults) (now : ℕ) (seen : List Text) (t : Tables)
    → IsValid t
    → Leaves (add_from fails now seen cs t)
unfolding add_from
add_from-Leaves [] fails now seen t h = h
add_from-Leaves (c ∷ cs) fails now seen t h =
    of_branches Leaves (is_empty (normalize_code c.code) || contains (normalize_code c.code) seen)
      (λ _. add_from-Leaves cs fails now seen t h)
      (λ _. elim (Option-cases (insert_code fails now c t)) [
        | inl e ↦ rw e tt
        | inr (r, e) ↦ rw e (
            note_added-Leaves r.1 c.code _ (
              add_from-Leaves cs (after_faults 2 fails) now (normalize_code c.code ∷ seen) r.0
                (subst Leaves e (insert_code-IsValid fails now c t h))))
      ])

pub add_many-IsValid :
    (commit_fails : Bool) (fails : Faults) (now : ℕ) (cs : List GuestCode) (t : Tables)
    → IsValid t
    → IsValid (add_many commit_fails fails now cs t).0
unfolding add_many
add_many-IsValid commit_fails fails now cs t h =
    added_codes-IsValid (transaction commit_fails t (add_from fails now [] cs t)) (
      transaction-IsValid commit_fails t (add_from fails now [] cs t) h
        (add_from-Leaves cs fails now [] t h))

edit_row-Keeps :
    (k : Text) (expires_at duration_min max_uses : ℕ) (note : Text)
    → Keeps (edit_row k expires_at duration_min max_uses note)
unfolding edit_row
edit_row-Keeps k expires_at duration_min max_uses note = record {
  code = λ r. ground arith;
  key = λ r. ground arith;
  valid = λ r h.
      of_branches RowIsValid (text_eq r.code_lower k) (λ _. (h.0, nullable_ne expires_at)) (λ _. h);
}

pub edit-IsValid :
    (fails : Bool) (code : Text) (expires_at duration_min max_uses : ℕ) (note : Text) (t : Tables)
    → IsValid t
    → IsValid (edit fails code expires_at duration_min max_uses note t).0
unfolding edit
edit-IsValid fails code expires_at duration_min max_uses note t h =
    let keeps = edit_row-Keeps (normalize_code code) expires_at duration_min max_uses note in
    of_branches (λ (r : Tables × Bool). IsValid r.0) (is_empty (normalize_code code) || fails)
      (λ _. h)
      (λ _. record {
        rows = Rows-map _ keeps t.codes h.rows;
        owners = Owned-map _ keeps t.codes t.uses h.owners;
      })

pub validate-IsValid :
    (fails : Faults) (now : ℕ) (code mac ip guest_upn : Text) (t : Tables)
    → IsValid t
    → IsValid (validate fails now code mac ip guest_upn t).0
validate-IsValid fails now code mac ip guest_upn t h =
    elim (validate_cases fails now code mac ip guest_upn t) [
      | inl same ↦ subst IsValid (sym (ap (λ r. r.0) same)) h
      | inr r ↦ subst IsValid (sym r.written) (record {
        rows = h.rows;
        owners = Owned-append t.codes t.uses _ h.owners (
          find_row-owned (normalize_code code) t.codes r.row _ r.found (text_eq_refl r.row.code),
          tt,
        );
      })
    ]

-- A call of the store that writes.
pub data Call : Type 0 where
  adds : GuestCode → Call
  adds_many : Bool → List GuestCode → Call
  deletes : Text → Call
  deletes_many : List Text → Call
  edits : Text → ℕ → ℕ → ℕ → Text → Call
  deletes_inactive : Call
  validates : Text → Text → Text → Text → Call

pub step : Faults → ℕ → Call → Tables → Tables
step fails now (adds c) t = (add fails now c t).0
step fails now (adds_many commit_fails cs) t = (add_many commit_fails fails now cs t).0
step fails now (deletes code) t = (delete (fails 0) code t).0
step fails now (deletes_many codes) t = (delete_many (fails 0) codes t).0
step fails now (edits code expires_at duration_min max_uses note) t =
    (edit (fails 0) code expires_at duration_min max_uses note t).0
step fails now deletes_inactive t = (delete_inactive (fails 0) now t).0
step fails now (validates code mac ip guest_upn) t = (validate fails now code mac ip guest_upn t).0

pub run : List (Faults × ℕ × Call) → Tables → Tables
run [] t = t
run ((fails, now, c) ∷ cs) t = run cs (step fails now c t)

step-IsValid :
    (fails : Faults) (now : ℕ) (c : Call) (t : Tables) → IsValid t → IsValid (step fails now c t)
unfolding step delete delete_many delete_inactive
step-IsValid fails now (adds c) t h = add-IsValid fails now c t h
step-IsValid fails now (adds_many commit_fails cs) t h =
    add_many-IsValid commit_fails fails now cs t h
step-IsValid fails now (deletes code) t h =
    of_branches (λ (r : Tables × Bool). IsValid r.0) (is_empty (normalize_code code) || fails 0)
      (λ _. h) (λ _. delete_rows-IsValid _ t h)
step-IsValid fails now (deletes_many codes) t h =
    of_branches (λ (r : Tables × ℕ). IsValid r.0) (length (keys_of codes) == 0 || fails 0) (λ _. h)
      (λ _. delete_rows-IsValid _ t h)
step-IsValid fails now (edits code expires_at duration_min max_uses note) t h =
    edit-IsValid (fails 0) code expires_at duration_min max_uses note t h
step-IsValid fails now deletes_inactive t h =
    of_branches (λ (r : Tables × ℕ). IsValid r.0) (fails 0) (λ _. h)
      (λ _. delete_rows-IsValid _ t h)
step-IsValid fails now (validates code mac ip guest_upn) t h =
    validate-IsValid fails now code mac ip guest_upn t h

-- Whatever calls write to the store, and whichever of their statements fail: no two codes share a
-- lookup key, each key is that of its code, no stored expiry reads as "never", and every recorded use
-- belongs to a code that is there.
pub run-IsValid : (cs : List (Faults × ℕ × Call)) (t : Tables) → IsValid t → IsValid (run cs t)
unfolding run
run-IsValid [] t h = h
run-IsValid ((fails, now, c) ∷ cs) t h =
    run-IsValid cs (step fails now c t) (step-IsValid fails now c t h)
