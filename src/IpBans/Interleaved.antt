-- ===== src/IpBans/Interleaved.antt =====
-- portal/store_ipban.go: the table and one instance whose calls run beside each other. A refresh reads
-- the table outside the lock and installs what it read later, so other calls come in between.
pub mod Enforced
use wi_fi_roaming_with_i_kua.Prelude.{
  ℕ, zero, suc, ◌+◌, ◌≤◌, ◌<◌, ◌≡◌, refl, Bool, true, false, ◌&&◌, List, [], ◌∷◌, Option, none,
  some, length, leb, ltb, arith,
}
use wi_fi_roaming_with_i_kua.Text.{Text, is_empty}
use wi_fi_roaming_with_i_kua.Text.Laws.{text_eq_iff}
use wi_fi_roaming_with_i_kua.Maps.{Map, lookup, keep}
use wi_fi_roaming_with_i_kua.Maps.Laws.{lookup-put, lookup-delete, lookup-keep}
use wi_fi_roaming_with_i_kua.IpBans.{
  Table, View, max_cached_bans, active_rows, install, refresh, ban, later_of, moves_forward,
  read_expiry, is_banned, is_some, expiry_of, refresh_if_stale, ban_cache_ttl,
}
use wi_fi_roaming_with_i_kua.IpBans.Rows.{lookup-active_rows, lookup-active_rows-none}
use wi_fi_roaming_with_i_kua.IpBans.Enforcement.{
  extended-le, lookup-ban_table, lookup-ban_cache, banned_either,
}

-- The table, the view, and what refreshes have read and not installed yet.
pub record Shared : Type 0 where
  pub table : Table
  pub view : View
  pub reading : List (Map ℕ)

-- What happens: a ban here, whose statement may fail, or on another instance; the query of a refresh,
-- and its end, for one of those that are under way; the end of a lookup; the sweep of the table.
pub data Move : Type 0 where
  bans : Bool → Text → ℕ → Move
  bans_elsewhere : Text → ℕ → Move
  queries : Move
  installs : ℕ → Move
  looks_up : Text → Move
  sweeps : Move

-- Takes one out of those under way.
unfoldable pub pick : ℕ → List (Map ℕ) → Option (Map ℕ) × List (Map ℕ)
pick n [] = (none, [])
pick zero (rows ∷ l) = (some rows, l)
pick (suc n) (rows ∷ l) = let rest = pick n l in (rest.0, rows ∷ rest.1)

unfoldable pub installed : ℕ → Option (Map ℕ) → View → View
installed now none v = v
installed now (some rows) v = install now rows

unfoldable pub step : ℕ × Move → Shared → Shared
step (now, bans fails ip d) s =
    let r = ban fails now ip d (s.table, s.view) in record s { table = r.0; view = r.1 }
step (now, bans_elsewhere ip d) s = record s { table = (ban false now ip d (s.table, s.view)).0 }
step (now, queries) s = record s { reading = active_rows now s.table ∷ s.reading }
step (now, installs n) s =
    let r = pick n s.reading in record s { view = installed now r.0 s.view; reading = r.1 }
step (now, looks_up ip) s = record s { view = (read_expiry now ip s.view).0 }
step (now, sweeps) s = record s { table = keep (ltb now) s.table }

unfoldable pub run : List (ℕ × Move) → Shared → Shared
run [] s = s
run (m ∷ ms) s = run ms (step m s)
