-- ===== src/IpBans/Rows.antt =====
-- What a refreshed cache holds.
use wi_fi_roaming_with_i_kua.Prelude.{
  ◌∙◌, zero, suc, ℕ, ◌+◌, ◌≤◌, ◌≡◌, refl, ap, Bool, [], ◌∷◌, none, some, length, take,
  take_of_length-le, if◌then◌else◌, arith, ltb,
}
use wi_fi_roaming_with_i_kua.Text.{Text, text_eq}
use wi_fi_roaming_with_i_kua.Text.Laws.{text_eq_iff, text_eq_refl}
use wi_fi_roaming_with_i_kua.Maps.{Map, lookup, delete, keep}
use wi_fi_roaming_with_i_kua.Maps.Laws.{lookup-delete, lookup-keep, kept}
use wi_fi_roaming_with_i_kua.IpBans.{Table, max_cached_bans, insert_desc, order_desc, active_rows}

-- No key stands twice.
abbrev pub IsDistinct {ℓ} : {V : Type ℓ} → Map V → Type ℓ
IsDistinct [] = Unit
IsDistinct ((k, v) ∷ m) = (lookup k m ≡ none) × IsDistinct m

IsDistinct-delete {ℓ} : {V : Type ℓ} (k : Text) (m : Map V) → IsDistinct m → IsDistinct (delete k m)
unfolding delete
IsDistinct-delete k [] h = tt
IsDistinct-delete k ((j, v) ∷ m) h = ground (arith, IsDistinct-delete k m h.1, lookup-delete k j m)

pub IsDistinct-keep {ℓ} : {V : Type ℓ} (p : V → Bool) (m : Map V) → IsDistinct (keep p m)
unfolding keep
IsDistinct-keep p [] = tt
IsDistinct-keep p ((j, v) ∷ m) = ground (
  arith,
  IsDistinct-delete j (keep p m) (IsDistinct-keep p m),
  lookup-delete j j (keep p m),
  text_eq_refl j,
)

lookup-insert_desc :
    (k j : Text) (t : ℕ) (l : Map ℕ)
    → lookup k l ≡ none
    → lookup j (insert_desc k t l) ≡ (if text_eq k j then some t else lookup j l)
unfolding lookup insert_desc
lookup-insert_desc k j t [] h = refl
lookup-insert_desc k j t ((i, u) ∷ l) h =
    ground (arith, lookup-insert_desc k j t l, text_eq_iff i k, text_eq_iff i j, text_eq_iff k j)

lookup-order_desc : (j : Text) (l : Map ℕ) → IsDistinct l → lookup j (order_desc l) ≡ lookup j l
unfolding lookup order_desc
lookup-order_desc j [] h = refl
lookup-order_desc j ((k, t) ∷ l) h = ground (
  arith,
  lookup-order_desc j l h.1,
  lookup-order_desc k l h.1,
  lookup-insert_desc k j t (order_desc l),
)

length-insert_desc : (k : Text) (t : ℕ) (l : Map ℕ) → length (insert_desc k t l) ≡ length l + 1
unfolding insert_desc
length-insert_desc k t [] = omega arith
length-insert_desc k t ((i, u) ∷ l) = ground (arith, length-insert_desc k t l)

length-order_desc : (l : Map ℕ) → length (order_desc l) ≡ length l
unfolding order_desc
length-order_desc [] = refl
length-order_desc ((k, t) ∷ l) =
    omega (arith, length-insert_desc k t (order_desc l), length-order_desc l)

-- While the active bans fit the cap, the cached rows are those of the table that are not over.
pub lookup-active_rows :
    (now : ℕ) (ip : Text) (table : Table)
    → length (keep (ltb now) table) ≤ max_cached_bans
    → lookup ip (active_rows now table) ≡ kept (ltb now) (lookup ip table)
unfolding active_rows
lookup-active_rows now ip table fits =
    let active = keep (ltb now) table in
    rw
      (take_of_length-le max_cached_bans (order_desc active)
        (omega (arith, length-order_desc active)))
      (lookup-order_desc ip active (IsDistinct-keep (ltb now) table)
        ∙ lookup-keep (ltb now) ip table)

lookup-take-none :
    (n : ℕ) (ip : Text) (l : Map ℕ) → lookup ip l ≡ none → lookup ip (take n l) ≡ none
unfolding lookup
lookup-take-none zero ip l h = refl
lookup-take-none (suc n) ip [] h = refl
lookup-take-none (suc n) ip ((i, u) ∷ l) h = ground (arith, lookup-take-none n ip l)

-- An address that the table does not hold is not in a refreshed cache, however full.
pub lookup-active_rows-none :
    (now : ℕ) (ip : Text) (table : Table)
    → lookup ip table ≡ none
    → lookup ip (active_rows now table) ≡ none
unfolding active_rows
lookup-active_rows-none now ip table h =
    let active = keep (ltb now) table in
    lookup-take-none max_cached_bans ip (order_desc active) (
      lookup-order_desc ip active (IsDistinct-keep (ltb now) table)
      ∙ lookup-keep (ltb now) ip table
      ∙ ap (kept (ltb now)) h)
