-- ===== src/EventLog/Export.antt =====
-- portal/eventlog.go: the cells of the export, and the labels of the events.
use wi_fi_roaming_with_i_kua.Prelude.{
  ℕ, ◌≡◌, refl, Bool, true, ◌&&◌, ◌||◌, not, List, [], ◌∷◌, if◌then◌else◌, arith, ◌==◌,
}
use wi_fi_roaming_with_i_kua.Text.{Text, bytes, text_eq}
use wi_fi_roaming_with_i_kua.EventLog.{EventRow}

-- The bytes with which a spreadsheet begins a formula: = + - @, tab and carriage return.
unfoldable pub starts_formula : ℕ → Bool
starts_formula c = c == b'=' || (c == b'+' || (c == b'-' || (c == b'@' || (c == 9 || c == 13))))

-- sanitizeCSVCell
unfoldable pub sanitize_csv_cell : Text → Text
sanitize_csv_cell [] = []
sanitize_csv_cell (c ∷ s) = if starts_formula c then 39 ∷ c ∷ s else c ∷ s

-- writeCSVRowSafe: the cells that it hands to the writer.
unfoldable pub safe_row : List Text → List Text
safe_row [] = []
safe_row (c ∷ cells) = sanitize_csv_cell c ∷ safe_row cells

-- eventKindLabel
unfoldable pub event_kind_label : Text → Text
event_kind_label k =
    if text_eq k (bytes "login")
    then bytes "login"
    else if text_eq k (bytes "admin_action")
    then bytes "admin"
    else k

-- eventMethodLabel
unfoldable pub event_method_label : Text → Text
event_method_label m =
    if text_eq m (bytes "sso")
    then bytes "SSO"
    else if text_eq m (bytes "duo")
    then bytes "Duo"
    else if text_eq m (bytes "guest_code")
    then bytes "guest_code"
    else if text_eq m (bytes "admin")
    then bytes "admin_console"
    else m

-- eventResultLabel
unfoldable pub event_result_label : Text → Text
event_result_label r =
    if text_eq r (bytes "started")
    then bytes "started"
    else if text_eq r (bytes "success")
    then bytes "success"
    else if text_eq r (bytes "denied")
    then bytes "denied"
    else if text_eq r (bytes "rate_limited")
    then bytes "rate_limited"
    else if text_eq r (bytes "error")
    then bytes "error"
    else r

-- The header of the export.
abbrev pub csv_header : List Text
csv_header =
    bytes "Time"
    ∷ bytes "Kind"
    ∷ bytes "Subject"
    ∷ bytes "Method"
    ∷ bytes "Result"
    ∷ bytes "MAC"
    ∷ bytes "IP"
    ∷ bytes "Detail"
    ∷ []

-- The cells of an event, with the local form of a time.
unfoldable pub event_cells : (ℕ → Text) → EventRow → List Text
event_cells format r =
    format r.time
    ∷ event_kind_label r.event.kind
    ∷ r.event.subject
    ∷ event_method_label r.event.method
    ∷ event_result_label r.event.result
    ∷ r.event.mac
    ∷ r.event.ip
    ∷ r.event.detail
    ∷ []

-- WriteEventsCSV: the rows that go to the writer after the header.
unfoldable pub event_rows : (ℕ → Text) → List EventRow → List (List Text)
event_rows format [] = []
event_rows format (r ∷ rows) = safe_row (event_cells format r) ∷ event_rows format rows

-- A cell that a spreadsheet does not take for a formula.
unfoldable pub is_plain : Text → Bool
is_plain [] = true
is_plain (c ∷ s) = not (starts_formula c)

unfoldable pub all_plain : List Text → Bool
all_plain [] = true
all_plain (c ∷ cells) = is_plain c && all_plain cells

unfoldable pub all_rows_plain : List (List Text) → Bool
all_rows_plain [] = true
all_rows_plain (r ∷ rows) = all_plain r && all_rows_plain rows

is_plain-sanitize_csv_cell : (s : Text) → is_plain (sanitize_csv_cell s) ≡ true
unfolding is_plain sanitize_csv_cell starts_formula
is_plain-sanitize_csv_cell [] = refl
is_plain-sanitize_csv_cell (c ∷ s) = ground arith

all_plain-safe_row : (cells : List Text) → all_plain (safe_row cells) ≡ true
unfolding all_plain safe_row
all_plain-safe_row [] = refl
all_plain-safe_row (c ∷ cells) =
    ground (arith, is_plain-sanitize_csv_cell c, all_plain-safe_row cells)

-- No cell of the export begins like a formula, whatever the events hold.
pub event_rows-plain :
    (format : ℕ → Text) (rows : List EventRow) → all_rows_plain (event_rows format rows) ≡ true
unfolding all_rows_plain event_rows
event_rows-plain format [] = refl
event_rows-plain format (r ∷ rows) =
    ground (arith, all_plain-safe_row (event_cells format r), event_rows-plain format rows)

-- A cell that does not begin like a formula is written as it is.
pub sanitize_csv_cell-plain : (s : Text) → is_plain s ≡ true → sanitize_csv_cell s ≡ s
unfolding is_plain sanitize_csv_cell
sanitize_csv_cell-plain [] h = refl
sanitize_csv_cell-plain (c ∷ s) h = ground (arith, h)
