-- ===== src/BanHistory.antt =====
-- portal/store_policy.go: `banHistory`, how many cooldowns each address has had.
use wi_fi_roaming_with_i_kua.Prelude.{
  ℕ, ◌+◌, Bool, true, false, [], Option, none, some, length, if◌then◌else◌,
}
use wi_fi_roaming_with_i_kua.Text.{Text, is_empty}
use wi_fi_roaming_with_i_kua.Maps.{Map, lookup, put, delete}

abbrev pub History : Type 0
History = Map ℕ

unfoldable pub count_of : Option ℕ → ℕ
count_of none = 0
count_of (some n) = n

-- `get`
unfoldable pub get : Bool → Text → History → ℕ
unfolding is_empty lookup count_of
get fails ip h = if is_empty ip then 0 else if fails then 0 else count_of (lookup ip h)

-- `increment`: an upsert, then a read. A failed upsert gives 0.
unfoldable pub increment : Bool → Bool → Text → History → History × ℕ
unfolding is_empty put lookup count_of get
increment upsert_fails get_fails ip h =
    let h' = put ip (count_of (lookup ip h) + 1) h in
    if is_empty ip then (h, 0) else if upsert_fails then (h, 0) else (h', get get_fails ip h')

unfoldable pub reset : Bool → Text → History → History
unfolding is_empty delete
reset fails ip h = if is_empty ip then h else if fails then h else delete ip h

-- `resetAll`: the empty table, and how many rows went.
unfoldable pub reset_all : Bool → History → History × ℕ
reset_all true h = (h, 0)
reset_all false h = ([], length h)
