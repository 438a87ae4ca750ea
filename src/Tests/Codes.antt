-- ===== src/Tests/Codes.antt =====
-- The guest codes at concrete inputs.
use wi_fi_roaming_with_i_kua.Prelude.{
  ◌≡◌, ◌≤◌, ◌⊎◌, refl, Bool, true, List, [], ◌∷◌, none, some, arith,
}
use wi_fi_roaming_with_i_kua.Text.{Text, bytes, is_empty}
use wi_fi_roaming_with_i_kua.Database.{no_faults}
use wi_fi_roaming_with_i_kua.GuestCodes.Rows.{
  CodeRow, Tables, GuestCode, normalize_code, find_row, uses_of,
}
use wi_fi_roaming_with_i_kua.GuestCodes.Store.{redeem, validate, get, add}
use wi_fi_roaming_with_i_kua.GuestCodes.Redemption.{
  Attempt, wins, won, Redeems, validate_cases, redemptions_bounded,
}
use wi_fi_roaming_with_i_kua.GuestCodes.Valid.{IsValid}
use wi_fi_roaming_with_i_kua.GuestCodes.Invariant
use wi_fi_roaming_with_i_kua.GuestCodes.Invariant.{run-IsValid}
use wi_fi_roaming_with_i_kua.GuestCodes.Lookup.{redeemable, validate_iff_active}
use wi_fi_roaming_with_i_kua.GuestCodes.Added.{get-add}
use wi_fi_roaming_with_i_kua.GuestCodes.Queries.{CodeQuery}

-- A code for one use, and the same spelt by a guest.
abbrev single : CodeRow
single = record {
  code = bytes "Ab12";
  code_lower = bytes "ab12";
  created_at = 5;
  expires_at = some 100;
  duration_min = 60;
  max_uses = 1;
  note = [];
}

abbrev spelt : Text
spelt = bytes " aB12 "

abbrev tables : Tables
tables = record { codes = single ∷ []; uses = [] }

abbrev mac : Text
mac = bytes "aa"

tables-IsValid : IsValid tables
unfolding normalize_code find_row
tables-IsValid = record { rows = ((refl, ground arith), (refl, tt)); owners = tt }

abbrev race : List Attempt
race =
    record { fails = no_faults; now = 10; code = spelt; mac = mac; ip = []; guest_upn = [] }
    ∷ record { fails = no_faults; now = 11; code = bytes "ab12"; mac = []; ip = []; guest_upn = [] }
    ∷ []

redemptions_bounded_example : wins (bytes "ab12") race tables ≤ 1
unfolding uses_of find_row
redemptions_bounded_example =
    redemptions_bounded race (bytes "ab12") single tables refl (omega arith)

-- The first of the two calls wins.
first_wins : won (validate no_faults 10 spelt mac [] [] tables).1 ≡ true
unfolding validate is_empty normalize_code find_row redeem
first_wins = refl

validate_cases_example :
    (validate no_faults 10 spelt mac [] [] tables ≡ (tables, none))
    ⊎ Redeems 10 spelt mac [] [] tables (validate no_faults 10 spelt mac [] [] tables)
validate_cases_example = validate_cases no_faults 10 spelt mac [] [] tables

run-IsValid_example :
    IsValid (Invariant.run ((no_faults, 10, Invariant.validates spelt mac [] []) ∷ []) tables)
run-IsValid_example =
    run-IsValid ((no_faults, 10, Invariant.validates spelt mac [] []) ∷ []) tables tables-IsValid

validate_iff_active_example :
    won (validate no_faults 10 spelt mac [] [] tables).1
    ≡ redeemable 10 (get no_faults spelt tables)
validate_iff_active_example = validate_iff_active 10 spelt mac [] [] tables tables-IsValid

abbrev fresh : GuestCode
fresh = record {
  code = bytes "New1";
  created_at = 0;
  expires_at = 0;
  duration_min = 30;
  max_uses = 2;
  note = mac;
  uses = [];
}

get-add_example :
    get no_faults (bytes "nEW1 ") (add no_faults 7 fresh tables).0
    ≡ some (record fresh { created_at = 7 })
unfolding add normalize_code
get-add_example = get-add 7 fresh (bytes "nEW1 ") tables tables-IsValid refl refl refl

-- A search that matches everything.
abbrev like_all : Text → Text → Bool
like_all pattern value = true

abbrev all_codes : CodeQuery
all_codes = record { search = []; status = []; offset = 0; limit = 0 }

abbrev two : Tables
two = record { codes = single ∷ record single { code = mac; code_lower = mac } ∷ []; uses = [] }
