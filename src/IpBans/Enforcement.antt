-- ===== src/IpBans/Enforcement.antt =====
-- Who is banned after a ban, on this instance and on the others.
use wi_fi_roaming_with_i_kua.Prelude.{
  ℕ, ◌+◌, ◌-◌, ◌≤◌, ◌<◌, ◌≡◌, Bool, true, false, Option, none, some, if◌then◌else◌, arith, ltb,
  Bool-cases, inl, inr,
}
use wi_fi_roaming_with_i_kua.Text.{Text, is_empty}
use wi_fi_roaming_with_i_kua.Text.Laws.{text_eq_refl}
use wi_fi_roaming_with_i_kua.Maps.{lookup}
use wi_fi_roaming_with_i_kua.Maps.Laws.{lookup-put, lookup-delete}
use wi_fi_roaming_with_i_kua.IpBans.{
  Table, View, ban_cache_ttl, refresh, refresh_if_stale, later_of, moves_forward, ban, read_expiry,
  expiry_of, is_some, is_banned, unban,
}
use wi_fi_roaming_with_i_kua.IpBans.Rows.{lookup-active_rows-none}

-- The later of an old expiry and a new one.
abbrev pub extended : Option ℕ → ℕ → ℕ
extended none until = until
extended (some old) until = if ltb old until then until else old

pub lookup-ban_table :
    (now : ℕ) (ip : Text) (d : ℕ) (table : Table) (v : View)
    → is_empty ip ≡ false
    → lookup ip (ban false now ip d (table, v)).0 ≡ some (extended (lookup ip table) (now + d))
unfolding ban later_of
lookup-ban_table now ip d table v named =
    ground (arith, lookup-put ip ip (later_of (lookup ip table) (now + d)) table, text_eq_refl ip)

pub lookup-ban_cache :
    (fails : Bool) (now : ℕ) (ip : Text) (d : ℕ) (table : Table) (v : View)
    → is_empty ip ≡ false
    → lookup ip (ban fails now ip d (table, v)).1.cache
      ≡ some (extended (lookup ip v.cache) (now + d))
unfolding ban moves_forward
lookup-ban_cache fails now ip d table v named =
    ground (arith, lookup-put ip ip (now + d) v.cache, text_eq_refl ip)

read_absent :
    (later : ℕ) (ip : Text) (v : View)
    → lookup ip v.cache ≡ none
    → is_some (read_expiry later ip v).1 ≡ false
unfolding read_expiry
read_absent later ip v absent = ground arith

pub extended-le : (old : Option ℕ) (until : ℕ) → until ≤ extended old until
extended-le none until = omega arith
extended-le (some t) until = ground arith

-- An answer that holds both before and after a reload is the answer.
pub banned_either :
    (fails : Bool) (later : ℕ) (ip : Text) (table : Table) (v : View) (b : Bool)
    → is_some (read_expiry later ip v).1 ≡ b
    → is_some (read_expiry later ip (refresh false later table v)).1 ≡ b
    → (is_banned fails later ip table v).1 ≡ b
unfolding is_banned expiry_of refresh_if_stale refresh
banned_either true later ip table v b h k =
    elim (Bool-cases (ltb ban_cache_ttl (later - v.refreshed))) [ inl e ↦ rw e h | inr e ↦ rw e h ]
banned_either false later ip table v b h k =
    elim (Bool-cases (ltb ban_cache_ttl (later - v.refreshed))) [ inl e ↦ rw e k | inr e ↦ rw e h ]

failed_ban_table :
    (now : ℕ) (ip : Text) (d : ℕ) (table : Table) (v : View)
    → lookup ip table ≡ none
    → lookup ip (ban true now ip d (table, v)).0 ≡ none
unfolding ban
failed_ban_table now ip d table v absent = ground arith

refreshed-ban :
    (fails : Bool) (now : ℕ) (ip : Text) (d : ℕ) (table : Table) (v : View)
    → (ban fails now ip d (table, v)).1.refreshed ≡ v.refreshed
unfolding ban
refreshed-ban fails now ip d table v = ground arith

-- A reload forgets what the table does not hold.
refreshed_absent :
    (later : ℕ) (ip : Text) (table : Table) (v : View)
    → lookup ip table ≡ none
    → is_some (read_expiry later ip (refresh false later table v)).1 ≡ false
unfolding refresh
refreshed_absent later ip table v absent =
    read_absent later ip (refresh false later table v)
      (lookup-active_rows-none later ip table absent)

stale_absent :
    (later : ℕ) (ip : Text) (table : Table) (v : View)
    → lookup ip table ≡ none
    → ban_cache_ttl < later - v.refreshed
    → (is_banned false later ip table v).1 ≡ false
unfolding is_banned expiry_of refresh_if_stale
stale_absent later ip table v absent stale =
    ground (arith, refreshed_absent later ip table v absent)

-- A ban that the database refused, of an address with no row there, is lifted by the instance's next
-- successful reload, though its time is not over.
pub failed_ban_forgotten :
    (now later : ℕ) (ip : Text) (d : ℕ) (table : Table) (v : View)
    → lookup ip table ≡ none
    → ban_cache_ttl < later - v.refreshed
    → (is_banned false later ip (ban true now ip d (table, v)).0 (ban true now ip d (table, v)).1).1
      ≡ false
failed_ban_forgotten now later ip d table v absent stale =
    let t' = (ban true now ip d (table, v)).0 in
    let v' = (ban true now ip d (table, v)).1 in
    stale_absent later ip t' v' (failed_ban_table now ip d table v absent)
      (rw (refreshed-ban true now ip d table v) stale)

unban_cache :
    (ip : Text) (table : Table) (v : View) → lookup ip (unban false ip (table, v)).1.cache ≡ none
unfolding unban
unban_cache ip table v = ground (arith, lookup-delete ip ip v.cache, text_eq_refl ip)

unban_table :
    (ip : Text) (table : Table) (v : View) → lookup ip (unban false ip (table, v)).0 ≡ none
unfolding unban
unban_table ip table v = ground (arith, lookup-delete ip ip table, text_eq_refl ip)

-- The first lookup of an address after a successful unban, whenever it comes, finds no ban, if no
-- refresh was under way.
pub unban_lifts :
    (fails : Bool) (later : ℕ) (ip : Text) (table : Table) (v : View)
    → (is_banned fails later ip (unban false ip (table, v)).0 (unban false ip (table, v)).1).1
      ≡ false
unban_lifts fails later ip table v =
    let t' = (unban false ip (table, v)).0 in
    let v' = (unban false ip (table, v)).1 in
    banned_either fails later ip t' v' false (read_absent later ip v' (unban_cache ip table v))
      (refreshed_absent later ip t' v' (unban_table ip table v))
