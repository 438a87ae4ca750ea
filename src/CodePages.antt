-- ===== src/CodePages.antt =====
-- portal/main.go and portal/admin.go: the pages of the administration that write guest codes. A handler
-- takes what `requireAdmin` answers to its request; each gives the code tables and the event log. The
-- values drawn by crypto/rand are an argument: the attempt, the position and the size of the alphabet
-- give an index below the size, or none where the draw fails. `tailN` and `capLen` count bytes, as
-- ASCII texts have one for each rune.
pub mod Handlers
pub mod Batch
use wi_fi_roaming_with_i_kua.Prelude.{
  ℕ, zero, suc, ◌+◌, ◌-◌, ◌*◌, Bool, true, false, ◌&&◌, ◌||◌, not, List, [], ◌∷◌, ◌++◌, Option,
  none, some, if◌then◌else◌, ltb, leb, ◌==◌, length, take, drop, count, map,
}
use wi_fi_roaming_with_i_kua.Text.{Text, bytes, text_eq, is_empty, contains, trim_space}
use wi_fi_roaming_with_i_kua.ClientIp.{split}
use wi_fi_roaming_with_i_kua.Database.{Faults, after_faults}
use wi_fi_roaming_with_i_kua.Numbers.{ℤ, pos, clamp, itoa}
use wi_fi_roaming_with_i_kua.GuestCodes.Rows.{GuestCode, Tables, normalize_code}
use wi_fi_roaming_with_i_kua.GuestCodes.Store.{
  add, add_many, delete, delete_many, delete_inactive, edit,
}
use wi_fi_roaming_with_i_kua.SignIn.Redeem.{tail_n}
use wi_fi_roaming_with_i_kua.EventLog.{Table, log_admin_action}
use wi_fi_roaming_with_i_kua.Cookies.{AdminSession}
use wi_fi_roaming_with_i_kua.AdminGate.{Gate, admits, refuses, Refusal}
use wi_fi_roaming_with_i_kua.Forms.{
  parse_int_default, parse_max_uses, cap_len, capped, parse_duration_min, parse_expiry, Expiry,
  sets, bad_format, in_past,
}

-- GuestCodeType
pub data CodeType : Type 0 where
  numeric : CodeType
  alpha : CodeType
  alpha_numeric : CodeType

unfoldable pub alphabet : CodeType → Text
alphabet numeric = bytes "0123456789"
alphabet alpha = bytes "abcdefghijklmnopqrstuvwxyz"
alphabet alpha_numeric = bytes "abcdefghijklmnopqrstuvwxyz0123456789"

unfoldable pub byte_at : ℕ → Text → ℕ
byte_at n [] = 0
byte_at zero (c ∷ s) = c
byte_at (suc n) (c ∷ s) = byte_at n s

abbrev pub Draws : Type 0
Draws = ℕ → ℕ → Option ℕ

-- The loop of generateCode, from a position on.
unfoldable pub letters : Draws → Text → ℕ → ℕ → Option Text
letters draws letters_of at zero = some []
letters draws letters_of at (suc n) =
    let rest = letters draws letters_of (at + 1) n in
    elim (draws at (length letters_of)) [
      | none ↦ none
      | some i ↦ elim rest [ none ↦ none | some s ↦ some (byte_at i letters_of ∷ s) ]
    ]

unfoldable pub at_least : ℕ → ℕ → ℕ
at_least low n = if ltb n low then low else n

-- generateCode, none where a draw fails.
unfoldable pub generate_code : Draws → CodeType → ℕ → Option Text
generate_code draws type n = letters draws (alphabet type) 0 (capped 64 (at_least 4 n))

-- The fields of the forms.
pub record CodeForm : Type 0 where
  pub code : Text
  pub codes : Text
  pub code_type : Text
  pub count : Text
  pub length_field : Text
  pub expires_at : Text
  pub duration_min : Text
  pub duration_h : Text
  pub duration_m : Text
  pub max_uses : Text
  pub note : Text

-- What the handlers change.
pub record CodePortal : Type 0 where
  pub codes : Tables
  pub events : Table

pub data PageAnswer : Type 0 where
  fails_with : ℕ → Text → PageAnswer
  not_admitted : Refusal → PageAnswer
  created : Text → PageAnswer
  batch : List Text → PageAnswer
  ended : Bool → PageAnswer
  counted : ℕ → PageAnswer
  deleted_skipped : ℕ → ℕ → PageAnswer

-- The method and the gate that each handler begins with.
unfoldable pub for_admin :
    Text → Gate → CodePortal → (AdminSession → CodePortal × PageAnswer) → CodePortal × PageAnswer
for_admin http_method gate p body =
    let gated : CodePortal × PageAnswer = elim gate [
      | refuses r ↦ (p, not_admitted r)
      | admits s ↦ body s
    ] in
    if text_eq http_method (bytes "POST")
    then gated
    else (p, fails_with 405 (bytes "method_not_allowed"))

unfoldable pub logged : Bool → ℕ → AdminSession → Text → Text → CodePortal → CodePortal
logged fails now admin client detail p = record p {
  events = log_admin_action fails now admin.upn client (bytes "success") detail p.events;
}

unfoldable pub note_of : CodeForm → Text
note_of f = cap_len (trim_space f.note) 256

unfoldable pub session_minutes : CodeForm → ℕ
session_minutes f = parse_duration_min f.duration_min f.duration_h f.duration_m

-- The detail of the record of a new code.
unfoldable pub add_detail : Bool → Text → Text → Text
add_detail provided code note =
    (if provided then bytes "add code-suffix=" else bytes "add auto-gen code-suffix=")
    ++ (tail_n 4 code ++ (if is_empty note then [] else bytes " note=" ++ cap_len note 64))

module _ (rfc3339 : Text → Option ℕ) (local : Text → Option ℕ) where
  -- The end of handleCodeCreate: statements 0 to 2 add the code, 3 records it.
  unfoldable pub create_code :
      Faults
      → ℕ
      → Text
      → AdminSession
      → Bool
      → Text
      → CodeForm
      → CodePortal
      → CodePortal × PageAnswer
  create_code fails now client admin provided code f p =
      let expiry = parse_expiry rfc3339 local now f.expires_at false in
      let made : ℕ → GuestCode = (λ t. record {
        code = code;
        created_at = now;
        expires_at = t;
        duration_min = session_minutes f;
        max_uses = parse_max_uses f.max_uses;
        note = note_of f;
        uses = [];
      }) in
      let store : ℕ → CodePortal × PageAnswer = (λ t.
        let added = add fails now (made t) p.codes in
        let q : CodePortal = record p { codes = added.0 } in
        if added.1
        then (
          logged (fails 3) now admin client (add_detail provided code (note_of f)) q,
          created code,
        )
        else (q, fails_with 409 (bytes "duplicate_code"))) in
      if provided && ltb 64 (length code)
      then (p, fails_with 400 (bytes "code_too_long"))
      else if provided && ltb (length code) 6
      then (p, fails_with 400 (bytes "code_too_short"))
      else elim expiry [
        | bad_format ↦ (p, fails_with 400 (bytes "expires_at format error"))
        | in_past ↦ (p, fails_with 400 (bytes "expires_at must not be in the past"))
        | sets t ↦ elim t [ none ↦ store 0 | some at ↦ store at ]
      ]

  -- handleCodeCreate
  unfoldable pub handle_code_create :
      Faults → Draws → ℕ → Text → Text → Gate → CodeForm → CodePortal → CodePortal × PageAnswer
  handle_code_create fails draws now client http_method gate f p =
      for_admin http_method gate p (λ admin.
        let code = trim_space f.code in
        let generated : CodePortal × PageAnswer = elim (generate_code draws numeric 10) [
          | none ↦ (p, fails_with 500 (bytes "rand_failed"))
          | some g ↦ create_code fails now client admin false g f p
        ] in
        if is_empty code then generated else create_code fails now client admin true code f p)

-- The codes of a batch: the attempts that are left, the number of the attempt, the codes that are
-- wanted, and the keys seen; none where a draw fails.
unfoldable pub batch_codes : (ℕ → Draws) → CodeType → ℕ → ℕ → ℕ → ℕ → List Text → Option (List Text)
batch_codes draws type n zero attempt wanted seen = some []
batch_codes draws type n (suc fuel) attempt zero seen = some []
batch_codes draws type n (suc fuel) attempt (suc wanted) seen =
    elim (generate_code (draws attempt) type n) [
      | none ↦ none
      | some raw ↦
          let k = normalize_code raw in
          let again = batch_codes draws type n fuel (attempt + 1) (suc wanted) seen in
          let next : Option (List Text) =
            elim (batch_codes draws type n fuel (attempt + 1) wanted (k ∷ seen)) [
              | none ↦ none
              | some codes ↦ some (raw ∷ codes)
            ] in
          if contains k seen then again else next
    ]

unfoldable pub code_type_of : Text → CodeType
code_type_of s =
    let t = trim_space s in
    if text_eq t (bytes "alpha")
    then alpha
    else if text_eq t (bytes "alphanumeric")
    then alpha_numeric
    else numeric

unfoldable pub type_name : CodeType → Text
type_name numeric = bytes "numeric"
type_name alpha = bytes "alpha"
type_name alpha_numeric = bytes "alphanumeric"

unfoldable pub batch_count : Text → ℕ
batch_count s = capped 200 (at_least 1 (clamp (parse_int_default s (pos 10))))

unfoldable pub batch_length : Text → ℕ
batch_length s = capped 32 (at_least 6 (clamp (parse_int_default s (pos 15))))
