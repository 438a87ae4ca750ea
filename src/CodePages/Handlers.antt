-- ===== src/CodePages/Handlers.antt =====
-- portal/main.go: handleCodeBatch, handleCodeDelete, handleCodeDeleteInactive, handleCodeDeleteBulk and
-- handleCodeEdit.
use wi_fi_roaming_with_i_kua.Prelude.{
  ℕ, ◌-◌, ◌*◌, true, false, not, List, [], ◌++◌, Option, none, some, if◌then◌else◌, length, count,
  map,
}
use wi_fi_roaming_with_i_kua.Text.{Text, bytes, is_empty, trim_space}
use wi_fi_roaming_with_i_kua.ClientIp.{split}
use wi_fi_roaming_with_i_kua.Database.{Faults, after_faults}
use wi_fi_roaming_with_i_kua.Numbers.{itoa}
use wi_fi_roaming_with_i_kua.GuestCodes.Rows.{GuestCode}
use wi_fi_roaming_with_i_kua.GuestCodes.Store.{add_many, delete, delete_many, delete_inactive, edit}
use wi_fi_roaming_with_i_kua.SignIn.Redeem.{tail_n}
use wi_fi_roaming_with_i_kua.AdminGate.{Gate}
use wi_fi_roaming_with_i_kua.Forms.{parse_max_uses, parse_expiry, sets, bad_format, in_past}
use wi_fi_roaming_with_i_kua.CodePages.{
  Draws, at_least, CodeForm, CodePortal, PageAnswer, for_admin, logged, note_of, session_minutes,
  batch_codes, code_type_of, type_name, batch_count, batch_length, fails_with, batch, ended,
  counted, deleted_skipped,
}

-- handleCodeBatch: statement 0 is the commit, 1 the record, the others insert codes. `clock` is the
-- time of each code.
unfoldable pub handle_code_batch :
    (Text → Option ℕ)
    → (Text → Option ℕ)
    → Faults
    → (ℕ → Draws)
    → ℕ
    → Text
    → Text
    → Gate
    → CodeForm
    → CodePortal
    → CodePortal × PageAnswer
handle_code_batch rfc3339 local fails draws now client http_method gate f p =
    for_admin http_method gate p (λ admin.
      let type = code_type_of f.code_type in
      let wanted = batch_count f.count in
      let n = batch_length f.length_field in
      let make : ℕ → Text → GuestCode = (λ t code. record {
        code = code;
        created_at = now;
        expires_at = t;
        duration_min = session_minutes f;
        max_uses = parse_max_uses f.max_uses;
        note = note_of f;
        uses = [];
      }) in
      let store : ℕ → List Text → CodePortal × PageAnswer = (λ t codes.
        let added = add_many (fails 0) (after_faults 2 fails) now (map (make t) codes) p.codes in
        let q : CodePortal = record p { codes = added.0 } in
        (
          logged (fails 1) now admin client
              (bytes "batch count="
                ++ (itoa (length added.1)
                    ++ (bytes " type=" ++ (type_name type ++ (bytes " len=" ++ itoa n)))))
              q,
          batch added.1,
        )) in
      let drawn : ℕ → CodePortal × PageAnswer = (λ t.
        elim (batch_codes draws type n (at_least 200 (wanted * 50)) 0 wanted []) [
          | none ↦ (p, fails_with 500 (bytes "rand_failed"))
          | some codes ↦ store t codes
        ]) in
      elim (parse_expiry rfc3339 local now f.expires_at false) [
        | bad_format ↦ (p, fails_with 400 (bytes "expires_at format error"))
        | in_past ↦ (p, fails_with 400 (bytes "expires_at must not be in the past"))
        | sets t ↦ elim t [ none ↦ drawn 0 | some at ↦ drawn at ]
      ])

-- handleCodeDelete
unfoldable pub handle_code_delete :
    Faults → ℕ → Text → Text → Gate → CodeForm → CodePortal → CodePortal × PageAnswer
handle_code_delete fails now client http_method gate f p = for_admin http_method gate p (λ admin.
    let code = trim_space f.code in
    let gone = delete (fails 0) code p.codes in
    let q : CodePortal = record p { codes = gone.0 } in
    let detail = bytes "delete code-suffix=" ++ tail_n 4 code in
    if is_empty code
    then (p, fails_with 400 (bytes "missing_code"))
    else (if gone.1 then logged (fails 1) now admin client detail q else q, ended gone.1))

-- handleCodeDeleteInactive
unfoldable pub handle_code_delete_inactive :
    Faults → ℕ → Text → Text → Gate → CodePortal → CodePortal × PageAnswer
handle_code_delete_inactive fails now client http_method gate p =
    for_admin http_method gate p (λ admin.
      let gone = delete_inactive (fails 0) now p.codes in
      (
        logged (fails 1) now admin client (bytes "delete-inactive deleted=" ++ itoa gone.1)
            (record p { codes = gone.0 }),
        counted gone.1,
      ))

-- handleCodeDeleteBulk
unfoldable pub handle_code_delete_bulk :
    Faults → ℕ → Text → Text → Gate → CodeForm → CodePortal → CodePortal × PageAnswer
handle_code_delete_bulk fails now client http_method gate f p =
    for_admin http_method gate p (λ admin.
      let codes = split b',' f.codes in
      let gone = delete_many (fails 0) codes p.codes in
      let skipped = count (λ c. not (is_empty (trim_space c))) codes - gone.1 in
      if is_empty (trim_space f.codes) then (p, fails_with 400 (bytes "missing_codes")) else (
        logged (fails 1) now admin client
            (bytes "delete-bulk deleted=" ++ (itoa gone.1 ++ (bytes " skipped=" ++ itoa skipped)))
            (record p { codes = gone.0 }),
        deleted_skipped gone.1 skipped,
      ))

-- handleCodeEdit
unfoldable pub handle_code_edit :
    (Text → Option ℕ)
    → (Text → Option ℕ)
    → Faults
    → ℕ
    → Text
    → Text
    → Gate
    → CodeForm
    → CodePortal
    → CodePortal × PageAnswer
handle_code_edit rfc3339 local fails now client http_method gate f p =
    for_admin http_method gate p (λ admin.
      let code = trim_space f.code in
      let store : ℕ → CodePortal × PageAnswer = (λ t.
        let edited =
          edit (fails 0) code t (session_minutes f) (parse_max_uses f.max_uses) (note_of f)
            p.codes in
        let q : CodePortal = record p { codes = edited.0 } in
        if edited.1
        then (
          logged (fails 1) now admin client (bytes "edit code-suffix=" ++ tail_n 4 code) q,
          ended true,
        )
        else (q, fails_with 404 (bytes "not_found"))) in
      if is_empty code
      then (p, fails_with 400 (bytes "missing_code"))
      else elim (parse_expiry rfc3339 local now f.expires_at true) [
        | bad_format ↦ (p, fails_with 400 (bytes "expires_at format error"))
        | in_past ↦ (p, fails_with 400 (bytes "expires_at must not be in the past"))
        | sets t ↦ elim t [ none ↦ store 0 | some at ↦ store at ]
      ])
