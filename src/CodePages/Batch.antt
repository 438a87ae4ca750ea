-- ===== src/CodePages/Batch.antt =====
-- The codes that a batch offers to the store.
use wi_fi_roaming_with_i_kua.Prelude.{
  ℕ, zero, suc, ◌+◌, ◌≤◌, ◌≡◌, inl, inr, Bool, true, ◌&&◌, not, List, [], ◌∷◌, some, arith, length,
  Bool-cases, Option-cases,
}
use wi_fi_roaming_with_i_kua.Text.{Text, contains}
use wi_fi_roaming_with_i_kua.GuestCodes.Rows.{normalize_code}
use wi_fi_roaming_with_i_kua.Forms.{capped}
use wi_fi_roaming_with_i_kua.CodePages.{
  CodeType, Draws, letters, at_least, alphabet, generate_code, batch_codes,
}

length-letters :
    (draws : Draws) (letters_of : Text) (at n : ℕ) (s : Text)
    → letters draws letters_of at n ≡ some s
    → length s ≡ n
unfolding letters
length-letters draws letters_of at zero s e = ground (arith, e)
length-letters draws letters_of at (suc n) s e =
    elim (Option-cases (letters draws letters_of (at + 1) n)) [
      | inl n' ↦ absurd (ground (arith, e, n'))
      | inr (t, r) ↦ ground (arith, e, r, length-letters draws letters_of (at + 1) n t r)
    ]

-- A generated code has the length that is asked for, between 4 and 64.
pub length-generate_code :
    (draws : Draws) (type : CodeType) (n : ℕ) (s : Text)
    → generate_code draws type n ≡ some s
    → (4 ≤ n → n ≤ 64 → length s ≡ n) × (4 ≤ length s) × (length s ≤ 64)
unfolding generate_code capped at_least
length-generate_code draws type n s e =
    let l = length-letters draws (alphabet type) 0 (capped 64 (at_least 4 n)) s e in
    (λ low high. ground (arith, l, low, high), ground (arith, l), ground (arith, l))

-- The keys of the codes are not among those seen, and differ from each other.
unfoldable pub distinct_keys : List Text → List Text → Bool
distinct_keys seen [] = true
distinct_keys seen (c ∷ codes) =
    not (contains (normalize_code c) seen) && distinct_keys (normalize_code c ∷ seen) codes

-- A batch that is drawn has no more codes than are wanted, and no two of them have the same key.
pub distinct_keys-batch_codes :
    (draws : ℕ → Draws) (type : CodeType) (n fuel attempt wanted : ℕ) (seen codes : List Text)
    → batch_codes draws type n fuel attempt wanted seen ≡ some codes
    → (distinct_keys seen codes ≡ true) × (length codes ≤ wanted)
unfolding batch_codes distinct_keys
distinct_keys-batch_codes draws type n zero attempt wanted seen codes e =
    (ground (arith, e), ground (arith, e))
distinct_keys-batch_codes draws type n (suc fuel) attempt zero seen codes e =
    (ground (arith, e), ground (arith, e))
distinct_keys-batch_codes draws type n (suc fuel) attempt (suc wanted) seen codes e =
    elim (Option-cases (generate_code (draws attempt) type n)) [
      | inl f ↦ absurd (ground (arith, e, f))
      | inr (raw, g) ↦ elim (Bool-cases (contains (normalize_code raw) seen)) [
        | inl old ↦
            distinct_keys-batch_codes draws type n fuel (attempt + 1) (suc wanted) seen codes
              (ground (arith, e, g, old))
        | inr new ↦
            elim (Option-cases
              (batch_codes draws type n fuel (attempt + 1) wanted (normalize_code raw ∷ seen))) [
                | inl f ↦ absurd (ground (arith, e, g, new, f))
                | inr (more, r) ↦
                    let (distinct, le) =
                      distinct_keys-batch_codes draws type n fuel (attempt + 1) wanted
                        (normalize_code raw ∷ seen) more r in
                    (ground (arith, e, g, new, r, distinct), ground (arith, e, g, new, r, le))
              ]
      ]
    ]
