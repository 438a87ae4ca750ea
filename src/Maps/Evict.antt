-- ===== src/Maps/Evict.antt =====
-- The loop that makes room in a full map: entries go in the order of a time, the earliest first,
-- while the map holds more than a target. (`sort.Slice` leaves the order of equal times open; here
-- it is the order of the map.)
use wi_fi_roaming_with_i_kua.Prelude.{
  ℕ, ◌≡◌, refl, ◌≤◌, Bool, true, false, ◌||◌, List, [], ◌∷◌, none, some, length, arith,
  if◌then◌else◌, ltb, leb,
}
use wi_fi_roaming_with_i_kua.Text.{Text, text_eq}
use wi_fi_roaming_with_i_kua.Text.Laws.{text_eq_refl}
use wi_fi_roaming_with_i_kua.Maps.{Map, lookup, has_key, delete}
use wi_fi_roaming_with_i_kua.Maps.Laws.{lookup-delete}

abbrev pub Stamps : Type 0
Stamps = List (Text × ℕ)

insert_stamp : Text → ℕ → Stamps → Stamps
insert_stamp k t [] = (k, t) ∷ []
insert_stamp k t ((j, u) ∷ l) = if leb t u then (k, t) ∷ (j, u) ∷ l else (j, u) ∷ insert_stamp k t l

-- sort.Slice by time.
unfoldable pub sort_stamps : Stamps → Stamps
unfolding insert_stamp
sort_stamps [] = []
sort_stamps ((k, t) ∷ l) = insert_stamp k t (sort_stamps l)

-- Whether a key is in the list.
listed : Text → Stamps → Bool
listed j [] = false
listed j ((k, t) ∷ l) = text_eq k j || listed j l

listed-insert_stamp :
    (j k : Text) (t : ℕ) (l : Stamps) → listed j (insert_stamp k t l) ≡ text_eq k j || listed j l
unfolding listed insert_stamp
listed-insert_stamp j k t [] = refl
listed-insert_stamp j k t ((i, u) ∷ l) = ground (arith, listed-insert_stamp j k t l)

listed-sort_stamps : (j : Text) (l : Stamps) → listed j (sort_stamps l) ≡ listed j l
unfolding listed sort_stamps
listed-sort_stamps j [] = refl
listed-sort_stamps j ((k, t) ∷ l) =
    ground (arith, listed-insert_stamp j k t (sort_stamps l), listed-sort_stamps j l)

module _ {ℓ} {V : Type ℓ} where
  -- `all = append(all, kv{k, time(v)})`
  unfoldable pub stamps : (V → ℕ) → Map V → Stamps
  stamps time [] = []
  stamps time ((k, v) ∷ m) = (k, time v) ∷ stamps time m

  -- `for i := 0; i < len(all) && len(m) > target; i++ { delete(m, all[i].k) }`
  unfoldable pub drop_first : ℕ → Stamps → Map V → Map V
  unfolding delete
  drop_first target [] m = m
  drop_first target ((k, t) ∷ l) m =
      let rest = drop_first target l (delete k m) in if ltb target (length m) then rest else m

  unfoldable pub evict_oldest : (V → ℕ) → ℕ → Map V → Map V
  unfolding drop_first stamps sort_stamps
  evict_oldest time target m = drop_first target (sort_stamps (stamps time m)) m

  listed-stamps : (time : V → ℕ) (j : Text) (m : Map V) → listed j (stamps time m) ≡ has_key j m
  unfolding listed stamps has_key
  listed-stamps time j [] = refl
  listed-stamps time j ((k, v) ∷ m) = ground (arith, listed-stamps time j m)

  has_key-delete :
      (k j : Text) (m : Map V)
      → has_key j (delete k m) ≡ (if text_eq k j then false else has_key j m)
  unfolding has_key
  has_key-delete k j m = ground (arith, lookup-delete k j m)

  -- Every key of the map is in the list.
  record Covers (l : Stamps) (m : Map V) : Type ℓ where
    at : (j : Text) → has_key j m ≡ true → listed j l ≡ true

  Covers-delete :
      {k : Text} {t : ℕ} {l : Stamps} {m : Map V} → Covers ((k, t) ∷ l) m → Covers l (delete k m)
  unfolding listed
  Covers-delete {k} {t} {l} {m} c = record {
    at = λ j h. ground (arith, has_key-delete k j m, c.at j);
  }

  Covers-nil : (m : Map V) → Covers [] m → m ≡ []
  unfolding listed has_key
  Covers-nil [] c = refl
  Covers-nil ((k, v) ∷ m) c = ground (arith, text_eq_refl k, c.at k)

  length-drop_first :
      (target : ℕ) (l : Stamps) (m : Map V) → Covers l m → length (drop_first target l m) ≤ target
  unfolding drop_first
  length-drop_first target [] m c = rw (Covers-nil m c) (omega arith)
  length-drop_first target ((k, t) ∷ l) m c =
      ground (arith, length-drop_first target l (delete k m) (Covers-delete c))

  -- The loop always reaches its target.
  pub length-evict_oldest :
      (time : V → ℕ) (target : ℕ) (m : Map V) → length (evict_oldest time target m) ≤ target
  unfolding evict_oldest
  length-evict_oldest time target m =
      length-drop_first target (sort_stamps (stamps time m)) m
        (record { at = λ j h. rw (listed-sort_stamps, listed-stamps) h })

  lookup-drop_first-none :
      (target : ℕ) (l : Stamps) (j : Text) (m : Map V)
      → lookup j m ≡ none
      → lookup j (drop_first target l m) ≡ none
  unfolding drop_first
  lookup-drop_first-none target [] j m h = h
  lookup-drop_first-none target ((k, t) ∷ l) j m h =
      ground (arith, lookup-delete k j m, lookup-drop_first-none target l j (delete k m))

  -- Making room adds no entry.
  pub lookup-evict_oldest-none :
      (time : V → ℕ) (target : ℕ) (j : Text) (m : Map V)
      → lookup j m ≡ none
      → lookup j (evict_oldest time target m) ≡ none
  unfolding evict_oldest
  lookup-evict_oldest-none time target j m h = lookup-drop_first-none target _ j m h

  -- An entry that survives is the entry that was there.
  lookup-drop_first-some :
      (target : ℕ) (l : Stamps) (j : Text) (m : Map V) (v : V)
      → lookup j (drop_first target l m) ≡ some v
      → lookup j m ≡ some v
  unfolding drop_first
  lookup-drop_first-some target [] j m v h = h
  lookup-drop_first-some target ((k, t) ∷ l) j m v h =
      ground (arith, lookup-delete k j m, lookup-drop_first-some target l j (delete k m) v)

  pub lookup-evict_oldest-some :
      (time : V → ℕ) (target : ℕ) (j : Text) (m : Map V) (v : V)
      → lookup j (evict_oldest time target m) ≡ some v
      → lookup j m ≡ some v
  unfolding evict_oldest
  lookup-evict_oldest-some time target j m v h = lookup-drop_first-some target _ j m v h
