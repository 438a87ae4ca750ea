-- ===== src/IpBans.antt =====
-- portal/store_ipban.go: cooldowns of addresses, a table that all instances share and each
-- instance's cache of it. Each call takes the time and, for each statement, whether it fails.
pub mod Rows
pub mod Enforcement
pub mod Interleaved
use wi_fi_roaming_with_i_kua.Prelude.{
  ℕ, ◌+◌, ◌-◌, ◌*◌, ◌/◌, Bool, true, false, ◌||◌, List, [], ◌∷◌, map, Option, none, some, length,
  take, if◌then◌else◌, ltb, leb, not, ◌&&◌,
}
use wi_fi_roaming_with_i_kua.Text.{Text, is_empty}
use wi_fi_roaming_with_i_kua.Maps.{Map, lookup, has_key, put, delete, keep}
use wi_fi_roaming_with_i_kua.Maps.Evict.{sort_stamps}

-- Times are in nanoseconds.
abbrev pub second : ℕ
second = 1_000_000_000

-- banCacheTTL
abbrev pub ban_cache_ttl : ℕ
ban_cache_ttl = 2 * second

-- maxCachedBans
abbrev pub max_cached_bans : ℕ
max_cached_bans = 50000

-- The table `ip_ban`: the expiry of each address.
abbrev pub Table : Type 0
Table = Map ℕ

-- What an instance keeps: the fields of `ipBanList` but `db` and `mu`.
pub record View : Type 0 where
  pub cache : Map ℕ
  pub refreshed : ℕ
  pub truncated : Bool

insert_desc : Text → ℕ → Map ℕ → Map ℕ
insert_desc k t [] = (k, t) ∷ []
insert_desc k t ((j, u) ∷ l) = if leb u t then (k, t) ∷ (j, u) ∷ l else (j, u) ∷ insert_desc k t l

-- `Order("until DESC")`
unfoldable pub order_desc : Map ℕ → Map ℕ
unfolding insert_desc
order_desc [] = []
order_desc ((k, t) ∷ l) = insert_desc k t (order_desc l)

-- `Where("until > ?", now).Order("until DESC").Limit(maxCachedBans)`
unfoldable pub active_rows : ℕ → Table → Map ℕ
unfolding keep order_desc
active_rows now table = take max_cached_bans (order_desc (keep (ltb now) table))

-- The end of `refresh`, under the lock: the rows that the query read become the view.
abbrev pub install : ℕ → Map ℕ → View
install now rows = record {
  cache = rows;
  refreshed = now;
  truncated = leb max_cached_bans (length rows);
}

-- `refresh`, with nothing between its query and its end. When the query fails the previous view is
-- kept.
unfoldable pub refresh : Bool → ℕ → Table → View → View
unfolding active_rows
refresh true now table v = v
refresh false now table v = install now (active_rows now table)

-- `newIPBanList`. A refresh that fails leaves Go's zero time, long ago, in `refreshed`.
pub new_ip_ban_list : Bool → ℕ → Table → View
unfolding refresh
new_ip_ban_list fails now table =
    refresh fails now table (record { cache = []; refreshed = 0; truncated = false })

unfoldable pub refresh_if_stale : Bool → ℕ → Table → View → View
unfolding refresh
refresh_if_stale fails now table v =
    if ltb ban_cache_ttl (now - v.refreshed) then refresh fails now table v else v

-- `CASE WHEN ip_ban.until > ? THEN ip_ban.until ELSE ? END` on a conflict.
unfoldable pub later_of : Option ℕ → ℕ → ℕ
later_of none until = until
later_of (some old) until = if ltb until old then old else until

-- `if prev, ok := b.cache[ip]; !ok || until.After(prev)`
unfoldable pub moves_forward : Option ℕ → ℕ → Bool
moves_forward none until = true
moves_forward (some prev) until = ltb prev until

unfoldable pub ban : Bool → ℕ → Text → ℕ → Table × View → Table × View
unfolding is_empty lookup put later_of moves_forward
ban fails now ip d (table, v) =
    let until = now + d in
    let table' = if fails then table else put ip (later_of (lookup ip table) until) table in
    let cache' =
      if moves_forward (lookup ip v.cache) until then put ip until v.cache else v.cache in
    if is_empty ip then (table, v) else (table', record v { cache = cache' })

-- The end of `expiryOf`, on the view it reads.
unfoldable pub read_expiry : ℕ → Text → View → View × Option ℕ
unfolding lookup delete
read_expiry now ip v = elim (lookup ip v.cache) [
  | none ↦ (v, none)
  | some exp ↦ if ltb exp now then (record v { cache = delete ip v.cache }, none) else (v, some exp)
]

unfoldable pub expiry_of : Bool → ℕ → Text → Table → View → View × Option ℕ
unfolding refresh_if_stale read_expiry
expiry_of fails now ip table v = read_expiry now ip (refresh_if_stale fails now table v)

abbrev pub is_some : Option ℕ → Bool
is_some none = false
is_some (some t) = true

unfoldable pub is_banned : Bool → ℕ → Text → Table → View → View × Bool
unfolding expiry_of
is_banned fails now ip table v = let (v', exp) = expiry_of fails now ip table v in (v', is_some exp)

-- `unban`: the table, the view, and whether there was a cooldown.
unfoldable pub unban : Bool → Text → Table × View → Table × View × Bool
unfolding has_key delete
unban fails ip (table, v) = (
  if fails then table else delete ip table,
  record v { cache = delete ip v.cache },
  not fails && has_key ip table || has_key ip v.cache,
)

-- `unbanAll`: the first statement counts, the second deletes.
unfoldable pub unban_all : Bool → Bool → ℕ → Table × View → Table × View × ℕ
unfolding keep
unban_all count_fails delete_fails now (table, v) =
    let n = if count_fails then 0 else length (keep (ltb now) table) in
    if delete_fails then (table, v, 0) else ([], record v { cache = []; refreshed = now }, n)

-- `snapshot`: addresses and expiries in seconds, the soonest first.
unfoldable pub snapshot : Bool → ℕ → Table → List (Text × ℕ)
unfolding keep sort_stamps
snapshot true now table = []
snapshot false now table =
    sort_stamps
      (map (λ r. (r.0, r.1 / second)) (take max_cached_bans (sort_stamps (keep (ltb now) table))))

-- One round of `gcLoop`: the sweep of the table, then a refresh.
unfoldable pub gc : Bool → Bool → ℕ → Table × View → Table × View
unfolding keep refresh
gc sweep_fails refresh_fails now (table, v) =
    let table' = if sweep_fails then table else keep (ltb now) table in
    (table', refresh refresh_fails now table' v)
