-- ===== src/SignIn/Start/Proceed.antt =====
-- What the answer of /auth/start reveals, and whom /auth/proceed redirects.
use wi_fi_roaming_with_i_kua.Prelude.{
  ℕ, ◌+◌, ◌≤◌, ◌≡◌, ◌≢◌, refl, sym, ap, ◌∙◌, Bool, true, false, List, Option, none, some, arith,
  Option-cases, inl, inr, length, ◌<◌,
}
use wi_fi_roaming_with_i_kua.Text.{Text, is_empty, text_eq, trim_space, to_lower}
use wi_fi_roaming_with_i_kua.Text.Laws.{text_eq_iff}
use wi_fi_roaming_with_i_kua.Database.{Faults, after_faults}
use wi_fi_roaming_with_i_kua.ProceedTokens.{
  ProceedEntry, put_token, take_token, max_proceed_entries,
}
use wi_fi_roaming_with_i_kua.ProceedTokens.SingleUse
use wi_fi_roaming_with_i_kua.ProceedTokens.SingleUse.{Fresh, take_token_once}
use wi_fi_roaming_with_i_kua.ProceedTokens.Kept.{
  take_token-held, length-put_token, run_kept, lookup-put_token, Untouched,
}
use wi_fi_roaming_with_i_kua.Maps.{lookup}
use wi_fi_roaming_with_i_kua.Denylist.{is_mac_denied}
use wi_fi_roaming_with_i_kua.SignIn.{Session, Portal, Response, banned_ip}
use wi_fi_roaming_with_i_kua.SignIn.Start.{
  DuoClients, StartConfig, StartRequest, route, hand_out, start_email, start_form,
  handle_auth_start, handle_auth_proceed,
}

module _ (query_escape : Text → Text) where
  hand_out-response :
      (duo duo' : Option DuoClients) (now : ℕ) (token : Option Text) (email : Text) (sess : Session)
      (p : Portal)
      → (hand_out query_escape duo now token email sess p).1
        ≡ (hand_out query_escape duo' now token email sess p).1
  unfolding hand_out put_token
  hand_out-response duo duo' now none email sess p = refl
  hand_out-response duo duo' now (some token) email sess p = refl

  start_email-response :
      (duo duo' : Option DuoClients) (fs : Faults) (now : ℕ) (r : StartRequest) (sess : Session)
      (cfg : StartConfig) (p : Portal)
      → (start_email query_escape duo fs now r sess cfg p).1
        ≡ (start_email query_escape duo' fs now r sess cfg p).1
  unfolding start_email
  start_email-response duo duo' fs now r sess cfg p =
      let email = to_lower (trim_space r.email) in
      ground (arith, hand_out-response duo duo' now r.token email (record sess { email = email }) p)

  form_hides_route :
      (duo duo' : Option DuoClients) (fs : Faults) (now : ℕ) (r : StartRequest)
      (cookie : Option Session) (cfg : StartConfig) (p : Portal)
      → (start_form query_escape duo fs now r cookie cfg p).1
        ≡ (start_form query_escape duo' fs now r cookie cfg p).1
  unfolding start_form
  form_hides_route duo duo' fs now r none cfg p = refl
  form_hides_route duo duo' fs now r (some sess) cfg p = ground (
    arith,
    start_email-response duo duo' (after_faults 4 fs) now r sess cfg
        (banned_ip fs now r.client (some sess.user_ip) p).0,
  )

  -- The response of /auth/start does not depend on what Duo says of the account, nor on whether Duo's
  -- clients are there: from the response alone nobody learns where the account will be sent.
  pub start_hides_route :
      (duo duo' : Option DuoClients) (fs : Faults) (now : ℕ) (r : StartRequest)
      (cookie : Option Session) (cfg : StartConfig) (p : Portal)
      → (handle_auth_start query_escape duo fs now r cookie cfg p).1
        ≡ (handle_auth_start query_escape duo' fs now r cookie cfg p).1
  unfolding handle_auth_start
  start_hides_route duo duo' fs now r cookie cfg p =
      ground (arith, form_hides_route duo duo' fs now r cookie cfg p)

-- /auth/proceed redirects a request to the destination of its token only if the store holds the token
-- for the session's state and not expired, and the session's device is not denied.
pub proceed_checks :
    (fails : Bool) (now : ℕ) (sess : Session) (token url : Text) (p : Portal)
    → (handle_auth_proceed fails now (some sess) token p).1 ≡ Response.redirects url
    → (is_mac_denied fails sess.mac p.denylist ≡ none)
      × ((e : ProceedEntry) × ((take_token now token p.proceed_store).1 ≡ some e)
          × (text_eq e.session_state sess.state ≡ true)
          × (e.url ≡ url))
unfolding handle_auth_proceed
proceed_checks fails now sess token url p redirected =
    elim (Option-cases (is_mac_denied fails sess.mac p.denylist)) [
      | inr (row, d) ↦ ground (arith, d, redirected)
      | inl d ↦ elim (Option-cases (take_token now token p.proceed_store).1) [
        | inl t ↦ ground (arith, d, t, redirected)
        | inr (e, t) ↦
            (d, (e, t, ground (arith, d, t, redirected), ground (arith, d, t, redirected)))
      ]
    ]

proceed_takes :
    (fails : Bool) (now : ℕ) (sess : Session) (token url : Text) (p : Portal)
    → (handle_auth_proceed fails now (some sess) token p).1 ≡ Response.redirects url
    → (handle_auth_proceed fails now (some sess) token p).0.proceed_store
      ≡ (take_token now token p.proceed_store).0
unfolding handle_auth_proceed
proceed_takes fails now sess token url p redirected =
    let c = proceed_checks fails now sess token url p redirected in
    ground (arith, c.0, c.1.1, redirected)

-- A token redirects once: after a redirect no request with it is redirected, from any session, at any
-- time and whatever else happens to the store, unless the random source makes the same token again.
pub proceed_once :
    (fails fails' : Bool) (now later : ℕ) (sess other : Session) (token url url' : Text)
    (p p' : Portal) (cs : List (ℕ × SingleUse.Call))
    → (handle_auth_proceed fails now (some sess) token p).1 ≡ Response.redirects url
    → p'.proceed_store
      ≡ SingleUse.run cs (handle_auth_proceed fails now (some sess) token p).0.proceed_store
    → Fresh token cs
    → (handle_auth_proceed fails' later (some other) token p').1 ≢ Response.redirects url'
proceed_once fails fails' now later sess other token url url' p p' cs redirected between fresh
      again =
    let c = proceed_checks fails' later other token url' p' again in
    let store =
      between ∙ ap (SingleUse.run cs) (proceed_takes fails now sess token url p redirected) in
    let gone = take_token_once now later token p.proceed_store cs fresh in
    ground (arith, gone, store, c.1.1)

proceeds :
    (now : ℕ) (sess : Session) (token : Text) (e : ProceedEntry) (p : Portal)
    → is_empty token ≡ false
    → is_mac_denied false sess.mac p.denylist ≡ none
    → (take_token now token p.proceed_store).1 ≡ some e
    → e.session_state ≡ sess.state
    → (handle_auth_proceed false now (some sess) token p).1 ≡ Response.redirects e.url
unfolding handle_auth_proceed
proceeds now sess token e p named allowed taken same =
    ground (arith, named, allowed, taken, same, text_eq_iff e.session_state sess.state)

module _ (query_escape : Text → Text) where
  stored :
      (duo : Option DuoClients) (now : ℕ) (token email : Text) (sess : Session) (p : Portal)
      → (hand_out query_escape duo now (some token) email sess p).0.proceed_store
        ≡ (put_token now
            (some token)
            (route query_escape duo email sess.state).0
            sess.state
            email
            p.proceed_store).0
  unfolding hand_out put_token
  stored duo now token email sess p = refl

  -- The token, not empty, that /auth/start hands out for an email leads the same session to the
  -- destination chosen for the email until the token's time is over, if the lookup works and does
  -- not find the device denied, and if in between the store of tokens has only the puts and takes
  -- of other tokens and the sweeps, too few of them to fill it.
  pub hand_out-proceed :
      (duo : Option DuoClients) (now later : ℕ) (token email : Text) (sess other : Session)
      (p p' : Portal) (cs : List (ℕ × SingleUse.Call))
      → is_empty token ≡ false
      → other.state ≡ sess.state
      → p'.proceed_store
        ≡ SingleUse.run cs (hand_out query_escape duo now (some token) email sess p).0.proceed_store
      → Untouched later token cs
      → length p.proceed_store.entries + length cs < max_proceed_entries
      → is_mac_denied false other.mac p'.denylist ≡ none
      → later ≤ now + p.proceed_store.ttl
      → (handle_auth_proceed false later (some other) token p').1
        ≡ Response.redirects (route query_escape duo email sess.state).0
  hand_out-proceed duo now later token email sess other p p' cs named same between apart room
        allowed fresh =
      let url = (route query_escape duo email sess.state).0 in
      let store = (put_token now (some token) url sess.state email p.proceed_store).0 in
      let entry : ProceedEntry = record {
        url = url;
        session_state = sess.state;
        email = email;
        expires = now + p.proceed_store.ttl;
      } in
      let small =
        length-put_token now token url sess.state email p.proceed_store (omega (arith, room)) in
      let kept =
        run_kept later token entry cs store fresh apart (omega (arith, room, small))
          (lookup-put_token now token url sess.state email p.proceed_store) in
      let there : lookup token p'.proceed_store.entries ≡ some entry =
        ap (λ s. lookup token s.entries)
          (between ∙ ap (SingleUse.run cs) (stored duo now token email sess p))
        ∙ kept in
      proceeds later other token entry p' named allowed
        (take_token-held later token entry p'.proceed_store there fresh) (sym same)
