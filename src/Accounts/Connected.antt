-- ===== src/Accounts/Connected.antt =====
-- Which account a callback of Zalo connects (`complete` and `saveConnectedAccount` of
-- apps/api/src/accounts/zalo-oauth.service.ts).
use tool_messager.Prelude.{
  ==_self, Option-cases, Result-cases, Text, [], ap, arith, false, find_first,
  find_first-append_new, find_first-update_found, inl, inr, ltb, ltb→lt, none, ok, refl, some, sym,
  text_eq_self, true, ℕ, ◌++◌, ◌<◌, ◌==◌, ◌∙◌, ◌∷◌, ◌≡◌,
}
use tool_messager.Shared.{zalo}
use tool_messager.Zalo.{ZaloOaInfo, ZaloTokenSet, non_empty}
use tool_messager.Zalo.Grants.{authenticate_code}
use tool_messager.Zalo.Calls.{get_account_info}
use tool_messager.Store.{Credential, Db, OauthState, SocialAccount, connected}
use tool_messager.Accounts.{OauthEnv, is_account_key, successful, update_account}
use tool_messager.Accounts.Oauth.{
  OauthCallback, claim_state, complete, connect, connected_account, is_open_state, matches_callback,
  names_other, reconnected, save_connected_account, state_given, store_account,
}
use tool_messager.Policy.{assert_account_capacity}
use tool_messager.Workspaces.{with_policy}
use tool_messager.Accounts.Login.{account_check_writes}

-- What a successful callback has shown: it came back with an open state, in time and at the registered
-- address, Zalo exchanged its code and the login's verifier for the tokens, and the tokens' account is
-- the one that the callback names, if it names one.
pub record IsLogin (env : OauthEnv) (now : ℕ) (input : OauthCallback) (db : Db) (s : OauthState)
    (t : ZaloTokenSet) (i : ZaloOaInfo) : Type 0 where
  pub state : Text
  pub auth_code : Text
  pub verifier : Text
  pub gave_state : state_given input ≡ some state
  pub gave_code : non_empty input.auth_code ≡ some auth_code
  pub open_state : find_first (is_open_state (env.hash state)) db.oauth_states ≡ some s
  pub in_time : now < s.expires_at
  pub registered : matches_callback env.zalo s.redirect_uri ≡ true
  pub unsealed : env.decrypt s.encrypted_code_verifier ≡ some verifier
  pub exchanged : successful (authenticate_code env.zalo env.api [] auth_code verifier).0 ≡ some t
  pub identified :
      successful (get_account_info env.zalo env.api [] (some t.access_token)).0 ≡ some i
  pub same_account : names_other input.oa_id i.oaid ≡ false

claim_sound :
    (env : OauthEnv) (now : ℕ) (state : Text) (db : Db) {s : OauthState} {t : Db}
    → claim_state env now state db ≡ (ok s, t)
    → (find_first (is_open_state (env.hash state)) db.oauth_states ≡ some s)
      × (ltb now s.expires_at ≡ true)
      × (matches_callback env.zalo s.redirect_uri ≡ true)
      × (t.accounts ≡ db.accounts)
unfolding claim_state
claim_sound env now state db h =
    elim (Option-cases (find_first (is_open_state (env.hash state)) db.oauth_states)) [
      | inl missing ↦ absurd (ground (arith, h, missing))
      | inr (s, found) ↦ (
        ground (arith, h, found),
        ground (arith, h, found),
        ground (arith, h, found),
        ground (arith, h, found),
      )
    ]

-- The row of the account after a successful save.
abbrev pub IsConnectedRow : OauthEnv → ZaloTokenSet → SocialAccount → Type 0
IsConnectedRow env t b =
    (b.status ≡ connected)
    × ((c : Credential) × (b.credential ≡ some c)
        × (c.encrypted_access_token ≡ env.encrypt t.access_token)
        × (c.encrypted_refresh_token ≡ some (env.encrypt t.refresh_token)))

module _ (env : OauthEnv) (now user workspace : ℕ) (i : ZaloOaInfo) (t : ZaloTokenSet)
    (db : Db) where
  save_existing :
      (a : SocialAccount)
      → find_first (is_account_key workspace zalo i.oaid) db.accounts ≡ some a
      → {id : ℕ} {db' : Db} → save_connected_account env now user workspace i t db ≡ (ok id, db')
      → (find_first (is_account_key workspace zalo i.oaid) db'.accounts
          ≡ some (reconnected env now i t a))
        × (id ≡ a.id)
  unfolding save_connected_account store_account update_account
  save_existing a found h =
      let kept =
        find_first-update_found (is_account_key workspace zalo i.oaid) (λ r. r.id == a.id)
          (reconnected env now i t) (λ x. unfold reconnected in refl) db.accounts found
          (==_self a.id) in
      (ground (arith, found, h, kept), ground (arith, found, h))

  save_new :
      find_first (is_account_key workspace zalo i.oaid) db.accounts ≡ none
      → {id : ℕ} {db' : Db} → save_connected_account env now user workspace i t db ≡ (ok id, db')
      → find_first (is_account_key workspace zalo i.oaid) db'.accounts
        ≡ some (connected_account env now id workspace i t)
  unfolding save_connected_account store_account
  save_new missing {id} h =
      elim (Result-cases (with_policy (assert_account_capacity now workspace) db)) [
        | inl (e, s, full) ↦ absurd (ground (arith, missing, h, full))
        | inr (u, s, room) ↦ ground (arith, missing, h, room, same_accounts s room, appended s id)
      ]
    where
      same_accounts :
          {u : Unit {0}} (s : Db)
          → with_policy (assert_account_capacity now workspace) db ≡ (ok u, s)
          → s.accounts ≡ db.accounts
      same_accounts s room =
          ap (λ r. r.1.accounts) (sym room)
          ∙ ap (λ (d : Db). d.accounts) (account_check_writes now workspace db)

      appended :
          (s : Db) (id : ℕ)
          → find_first
              (is_account_key workspace zalo i.oaid)
              (db.accounts ++ connected_account env now id workspace i t ∷ [])
            ≡ some (connected_account env now id workspace i t)
      appended s id =
          find_first-append_new (is_account_key workspace zalo i.oaid) db.accounts
            (connected_account env now id workspace i t) missing
            (unfold connected_account in ground (arith, ==_self workspace, text_eq_self i.oaid))

save_sound :
    (env : OauthEnv) (now user workspace : ℕ) (i : ZaloOaInfo) (t : ZaloTokenSet) (db : Db) {id : ℕ}
    {db' : Db}
    → save_connected_account env now user workspace i t db ≡ (ok id, db')
    → (b : SocialAccount) × (find_first (is_account_key workspace zalo i.oaid) db'.accounts
        ≡ some b)
      × IsConnectedRow env t b
save_sound env now user workspace i t db {id} h =
    elim (Option-cases (find_first (is_account_key workspace zalo i.oaid) db.accounts)) [
      | inl missing ↦ (
        connected_account env now id workspace i t,
        save_new env now user workspace i t db missing h,
        unfold connected_account in (refl, (_, refl, refl, refl)),
      )
      | inr (a, found) ↦ (
        reconnected env now i t a,
        (save_existing env now user workspace i t db a found h).0,
        unfold reconnected in (refl, (_, refl, refl, refl)),
      )
    ]

connect_sound :
    (env : OauthEnv) (now : ℕ) (input : OauthCallback) (auth_code : Text) (s : OauthState) (db : Db)
    {id : ℕ} {db' : Db}
    → connect env now input auth_code s db ≡ (ok id, db')
    → (v : Text) × (t : ZaloTokenSet) × (i : ZaloOaInfo) × (env.decrypt s.encrypted_code_verifier
        ≡ some v)
      × (successful (authenticate_code env.zalo env.api [] auth_code v).0 ≡ some t)
      × (successful (get_account_info env.zalo env.api [] (some t.access_token)).0 ≡ some i)
      × (names_other input.oa_id i.oaid ≡ false)
      × (save_connected_account env now s.user_id s.workspace_id i t db ≡ (ok id, db'))
unfolding connect
connect_sound env now input auth_code s db h =
    elim (Option-cases (env.decrypt s.encrypted_code_verifier)) [
      | inl unreadable ↦ absurd (ground (arith, h, unreadable))
      | inr (v, hv) ↦
          elim (Option-cases (successful (authenticate_code env.zalo env.api [] auth_code v).0)) [
            | inl no_tokens ↦ absurd (ground (arith, h, hv, no_tokens))
            | inr (t, ht) ↦
                elim (Option-cases
                  (successful (get_account_info env.zalo env.api [] (some t.access_token)).0)) [
                    | inl no_info ↦ absurd (ground (arith, h, hv, ht, no_info))
                    | inr (i, hi) ↦ (
                      v,
                      t,
                      i,
                      hv,
                      ht,
                      hi,
                      ground (arith, h, hv, ht, hi),
                      ground (arith, h, hv, ht, hi),
                    )
                  ]
          ]
    ]

complete_steps :
    (env : OauthEnv) (now : ℕ) (input : OauthCallback) (db : Db) {id : ℕ} {db' : Db}
    → complete env now input db ≡ (ok id, db')
    → (c : Text) × (state : Text) × (s : OauthState) × (u : Db) × (non_empty input.auth_code
        ≡ some c)
      × (state_given input ≡ some state)
      × (claim_state env now state db ≡ (ok s, u))
      × (connect env now input c s u ≡ (ok id, db'))
unfolding complete
complete_steps env now input db h = elim (Option-cases (non_empty input.auth_code)) [
  | inl missing ↦ absurd (ground (arith, h, missing))
  | inr (c, coded) ↦ elim (Option-cases (state_given input)) [
    | inl missing ↦ absurd (ground (arith, h, coded, missing))
    | inr (state, given) ↦ elim (Result-cases (claim_state env now state db)) [
      | inl (e, u, refused_claim) ↦ absurd (ground (arith, h, coded, given, refused_claim))
      | inr (s, u, claimed) ↦
          (c, state, s, u, coded, given, claimed, ground (arith, h, coded, given, claimed))
    ]
  ]
]

-- A callback connects an account only as the end of a login that was begun for a workspace: with an open
-- state, in time, at the registered address, with tokens that Zalo gave for its code and the login's
-- verifier, and for the official account of these tokens, which the callback must not contradict. That
-- account is then found in the state's workspace, connected, with these tokens sealed.
pub complete_sound :
    (env : OauthEnv) (now : ℕ) (input : OauthCallback) (db : Db) {id : ℕ} {db' : Db}
    → complete env now input db ≡ (ok id, db')
    → (s : OauthState) × (t : ZaloTokenSet) × (i : ZaloOaInfo) × IsLogin env now input db s t i
      × ((b : SocialAccount) × (find_first (is_account_key s.workspace_id zalo i.oaid) db'.accounts
            ≡ some b)
          × IsConnectedRow env t b)
complete_sound env now input db {id} {db'} h =
    let (c, state, s, u, coded, given, claimed, connects) = complete_steps env now input db h in
    let (found, alive, right, same) = claim_sound env now state db claimed in
    let (v, t, i, hv, ht, hi, agrees, saved) = connect_sound env now input c s u connects in
    (
      s,
      t,
      i,
      record {
        state = state;
        auth_code = c;
        verifier = v;
        gave_state = given;
        gave_code = coded;
        open_state = found;
        in_time = ltb→lt _ _ alive;
        registered = right;
        unsealed = hv;
        exchanged = ht;
        identified = hi;
        same_account = agrees;
      },
      save_sound env now s.user_id s.workspace_id i t u saved,
    )
