-- ===== src/GuestCodes/Rows.antt =====
-- portal/internal/dbstore/models.go and portal/admin.go: the rows of the two tables, the domain type
-- and the conversions. A negative number of uses or minutes acts as 0. A time that is 0 is Go's zero
-- time. Texts in the tables compare byte by byte.
use wi_fi_roaming_with_i_kua.Prelude.{
  ℕ, Bool, false, ◌&&◌, not, List, [], ◌∷◌, map, Option, none, some, length, select, if◌then◌else◌,
  ltb, leb, ◌==◌,
}
use wi_fi_roaming_with_i_kua.Text.{Text, text_eq, to_lower, trim_space}

-- dbstore.GuestCode
pub record CodeRow : Type 0 where
  pub code : Text
  pub code_lower : Text
  pub created_at : ℕ
  pub expires_at : Option ℕ
  pub duration_min : ℕ
  pub max_uses : ℕ
  pub note : Text

-- dbstore.GuestCodeUse; the order of the rows is that of their identifiers.
pub record UseRow : Type 0 where
  pub code : Text
  pub at : ℕ
  pub mac : Text
  pub ip : Text
  pub guest_upn : Text

-- The tables `guest_code` and `guest_code_use`.
pub record Tables : Type 0 where
  pub codes : List CodeRow
  pub uses : List UseRow

pub record CodeUse : Type 0 where
  pub at : ℕ
  pub mac : Text
  pub ip : Text
  pub guest_upn : Text

pub record GuestCode : Type 0 where
  pub code : Text
  pub created_at : ℕ
  pub expires_at : ℕ
  pub duration_min : ℕ
  pub max_uses : ℕ
  pub note : Text
  pub uses : List CodeUse

-- NormalizeCode
unfoldable pub normalize_code : Text → Text
unfolding to_lower trim_space
normalize_code code = to_lower (trim_space code)

-- A missing time becomes the time of the write, in both hooks BeforeSave.
abbrev pub or_now : ℕ → ℕ → ℕ
or_now now t = if t == 0 then now else t

unfoldable pub is_expired : ℕ → GuestCode → Bool
is_expired now c = if c.expires_at == 0 then false else ltb c.expires_at now

unfoldable pub is_exhausted : GuestCode → Bool
is_exhausted c = ltb 0 c.max_uses && leb c.max_uses (length c.uses)

pub data Status : Type 0 where
  expired : Status
  used : Status
  unused : Status

unfoldable pub status : ℕ → GuestCode → Status
unfolding is_expired
status now c =
    if is_expired now c
    then Status.expired
    else if ltb 0 (length c.uses)
    then Status.used
    else Status.unused

unfoldable pub is_active : ℕ → GuestCode → Bool
unfolding is_expired is_exhausted
is_active now c = not (is_expired now c) && not (is_exhausted c)

-- A nullable time as the domain type's, and back.
abbrev pub time_of : Option ℕ → ℕ
time_of none = 0
time_of (some t) = t

abbrev pub nullable : ℕ → Option ℕ
nullable t = if t == 0 then none else some t

unfoldable pub to_use : UseRow → CodeUse
to_use u = record { at = u.at; mac = u.mac; ip = u.ip; guest_upn = u.guest_upn }

-- toDomainCode
unfoldable pub to_domain_code : CodeRow → List UseRow → GuestCode
unfolding to_use
to_domain_code row uses = record {
  code = row.code;
  created_at = row.created_at;
  expires_at = time_of row.expires_at;
  duration_min = row.duration_min;
  max_uses = row.max_uses;
  note = row.note;
  uses = map to_use uses;
}

-- toRow, followed by the hook BeforeSave.
unfoldable pub to_row : ℕ → GuestCode → CodeRow
unfolding normalize_code
to_row now c = record {
  code = c.code;
  code_lower = normalize_code c.code;
  created_at = or_now now c.created_at;
  expires_at = nullable c.expires_at;
  duration_min = c.duration_min;
  max_uses = c.max_uses;
  note = c.note;
}

-- `Where("code_lower = ?", k).First(&row)`
unfoldable pub find_row : Text → List CodeRow → Option CodeRow
unfolding text_eq
find_row k [] = none
find_row k (r ∷ rows) = if text_eq r.code_lower k then some r else find_row k rows

-- `Where("code = ?", code)`
unfoldable pub uses_of : Text → List UseRow → List UseRow
unfolding text_eq
uses_of code uses = select (λ u. text_eq u.code code) uses

unfoldable pub insert_by_at : UseRow → List UseRow → List UseRow
insert_by_at u [] = u ∷ []
insert_by_at u (v ∷ l) = if leb u.at v.at then u ∷ v ∷ l else v ∷ insert_by_at u l

-- `Order("at ASC")`
unfoldable pub order_by_at : List UseRow → List UseRow
unfolding insert_by_at
order_by_at [] = []
order_by_at (u ∷ l) = insert_by_at u (order_by_at l)

-- The condition on `expires_at` in the queries.
unfoldable pub row_expired : ℕ → CodeRow → Bool
row_expired now row = elim row.expires_at [ none ↦ false | some t ↦ ltb t now ]

-- The subselect `exhausted`.
unfoldable pub row_exhausted : List UseRow → CodeRow → Bool
unfolding uses_of
row_exhausted uses row = ltb 0 row.max_uses && leb row.max_uses (length (uses_of row.code uses))
