-- ===== src/IpBans/Interleaved/Enforced.antt =====
-- What lookups answer of a ban while other calls of the instance run.
use wi_fi_roaming_with_i_kua.Prelude.{
  ℕ, ◌+◌, ◌≤◌, ◌<◌, ◌≡◌, Bool, true, false, ◌&&◌, List, [], ◌∷◌, none, some, length, leb, ltb,
  arith,
}
use wi_fi_roaming_with_i_kua.Text.{Text}
use wi_fi_roaming_with_i_kua.Maps.{Map, lookup, keep}
use wi_fi_roaming_with_i_kua.IpBans.{
  max_cached_bans, read_expiry, is_banned, expiry_of, refresh_if_stale, ban_cache_ttl,
}
use wi_fi_roaming_with_i_kua.IpBans.Rows.{lookup-active_rows-none}
use wi_fi_roaming_with_i_kua.IpBans.Interleaved.{
  bans, queries, installs, Shared, Move, pick, installed, step,
}

-- Whether a map bans an address until a time.
unfoldable pub holds : ℕ → Text → Map ℕ → Bool
holds until ip m = elim (lookup ip m) [ none ↦ false | some exp ↦ leb until exp ]

unfoldable pub all_hold : ℕ → Text → List (Map ℕ) → Bool
all_hold until ip [] = true
all_hold until ip (m ∷ l) = holds until ip m && all_hold until ip l

-- The table, the view and every refresh under way ban an address until a time.
pub record IsBanning (until : ℕ) (ip : Text) (s : Shared) : Type 0 where
  pub in_table : holds until ip s.table ≡ true
  pub in_view : holds until ip s.view.cache ≡ true
  pub in_reading : all_hold until ip s.reading ≡ true

-- The moves come before a time, and the active bans always fit the cache.
abbrev pub Fits : ℕ → List (ℕ × Move) → Shared → Type 0
Fits until [] s = Unit {0}
Fits until ((now, m) ∷ ms) s =
    (now < until)
    × (length (keep (ltb now) s.table) ≤ max_cached_bans)
    × Fits until ms (step (now, m) s)

-- A ban of an address that the table does not have, recorded between the query of a refresh and its
-- end, is not enforced by the instance once the refresh has ended, until the next one.
pub ban_lost :
    (fails : Bool) (now at end later : ℕ) (ip : Text) (d : ℕ) (s : Shared)
    → lookup ip s.table ≡ none
    → later ≤ end + ban_cache_ttl
    → (is_banned fails later ip
        (step (end, installs 0) (step (at, bans false ip d) (step (now, queries) s))).table
        (step (end, installs 0) (step (at, bans false ip d) (step (now, queries) s))).view).1
      ≡ false
unfolding step pick installed is_banned expiry_of refresh_if_stale read_expiry
ban_lost fails now at end later ip d s absent soon =
    ground (arith, lookup-active_rows-none now ip s.table absent, soon)
