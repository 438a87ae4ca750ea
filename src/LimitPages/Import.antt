-- ===== src/LimitPages/Import.antt =====
-- portal/main.go: handleDenylistImportCSV. What the multipart form and the CSV reader give is an
-- argument.
use wi_fi_roaming_with_i_kua.Prelude.{ℕ, suc, ◌&&◌, ◌==◌, List, [], ◌∷◌, ◌++◌, if◌then◌else◌}
use wi_fi_roaming_with_i_kua.Text.{Text, bytes, text_eq, is_empty, to_lower, trim_space}
use wi_fi_roaming_with_i_kua.Database.{Faults, after_faults}
use wi_fi_roaming_with_i_kua.Numbers.{itoa}
use wi_fi_roaming_with_i_kua.Denylist.{MacInput, add_mac_many}
use wi_fi_roaming_with_i_kua.Policies.{trim_prefix}
use wi_fi_roaming_with_i_kua.AdminGate.{Gate}
use wi_fi_roaming_with_i_kua.Forms.{cap_len}
use wi_fi_roaming_with_i_kua.LimitPages.{LimitPortal, Reply, fails_with, imported, gated, recorded}

-- The uploaded file.
pub data Upload : Type 0 where
  bad_multipart : Upload
  missing_file : Upload
  unparsed : Upload
  parsed_rows : List (List Text) → Upload

-- The byte order mark in UTF-8.
abbrev pub byte_order_mark : Text
byte_order_mark = 239 ∷ 187 ∷ 191 ∷ []

unfoldable pub reason_of : List Text → Text
reason_of [] = []
reason_of (reason ∷ columns) = cap_len (trim_space reason) 256

-- The loop over the rows, with the number of the row.
unfoldable pub import_inputs : Text → ℕ → List (List Text) → List MacInput
import_inputs admin_upn idx [] = []
import_inputs admin_upn idx ([] ∷ rows) = import_inputs admin_upn (suc idx) rows
import_inputs admin_upn idx ((cell ∷ columns) ∷ rows) =
    let mac = trim_space (trim_prefix cell byte_order_mark) in
    let rest = import_inputs admin_upn (suc idx) rows in
    if idx == 0 && text_eq (to_lower mac) (bytes "mac")
    then rest
    else if is_empty mac
    then rest
    else record { mac = mac; reason = reason_of columns; created_by = admin_upn } ∷ rest

-- handleDenylistImportCSV: statement 0 is the commit, 1 the record, the others insert devices.
unfoldable pub handle_denylist_import_csv :
    Faults → ℕ → Text → Text → Gate → Upload → LimitPortal → LimitPortal × Reply
handle_denylist_import_csv fails now client http_method gate upload p =
    gated http_method gate p (λ admin. elim upload [
      | bad_multipart ↦ (p, fails_with 400 (bytes "bad_multipart"))
      | missing_file ↦ (p, fails_with 400 (bytes "missing_file"))
      | unparsed ↦ (p, fails_with 400 (bytes "parse_failed"))
      | parsed_rows rows ↦
          let added =
            add_mac_many (fails 0) (after_faults 2 fails) now (import_inputs admin.upn 0 rows)
              p.denied in
          let detail =
            bytes "denylist import imported="
            ++ (itoa added.1.0 ++ (bytes " skipped=" ++ itoa added.1.1)) in
          (
            recorded (fails 1) now admin client detail (record p { denied = added.0 }),
            imported added.1.0 added.1.1,
          )
    ])
