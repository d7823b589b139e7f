-- ===== src/Accounts/Renewal.antt =====
-- What a renewal of tokens (apps/api/src/accounts/zalo-oauth.service.ts) makes of an account.
use tool_messager.Prelude.{
  ==_self, Option, Option-cases, Text, [], ap, arith, err, find_first, find_first-update_found,
  if◌then◌else◌, inl, inr, is_some, none, ok, refl, some, true, update_where, ℕ, ◌*◌, ◌+◌, ◌==◌,
  ◌∙◌, ◌≡◌, ◌⊎◌,
}
use tool_messager.Zalo.{ZaloTokenSet, non_empty}
use tool_messager.Zalo.Grants.{refresh_access_token}
use tool_messager.Store.{Credential, Db, SocialAccount, connected, reauth_required}
use tool_messager.Accounts.{OauthEnv, successful, update_account}
use tool_messager.Accounts.Refresh.{
  answered_account, do_refresh, is_zalo_account, store_answer, store_renewed,
}
use tool_messager.Platform.{ErrorCode, OperationResult}
use tool_messager.Workspaces.{service_unavailable}

-- What a renewal finds.
pub record IsRenewable (env : OauthEnv) (workspace id : ℕ) (db : Db) (a : SocialAccount)
    (c : Credential) (token : Text) : Type 0 where
  pub found : find_first (is_zalo_account workspace id) db.accounts ≡ some a
  pub has_credential : a.credential ≡ some c
  pub sealed : Text
  pub has_token : non_empty c.encrypted_refresh_token ≡ some sealed
  pub unsealed : env.decrypt sealed ≡ some token

renewal_of :
    (env : OauthEnv) (now user workspace id : ℕ) (db : Db) (a : SocialAccount) (c : Credential)
    (token : Text)
    → IsRenewable env workspace id db a c token
    → do_refresh env now user workspace id true db
      ≡ store_renewed env now user workspace a c
          (refresh_access_token env.zalo env.api [] token).0
          db
unfolding do_refresh
renewal_of env now user workspace id db a c token r =
    ground (arith, r.found, r.has_credential, r.has_token, r.unsealed)

-- The account's row after a forced renewal that Zalo answered with `r`.
abbrev pub after_renewal :
    OauthEnv → (now : ℕ) → Credential → OperationResult ZaloTokenSet → SocialAccount → SocialAccount
after_renewal env now c r = answered_account env now c r.error_code (successful r)

answered-key :
    (env : OauthEnv) (now : ℕ) (c : Credential) (e : Option ErrorCode) (o : Option ZaloTokenSet)
    (workspace id : ℕ) (x : SocialAccount)
    → is_zalo_account workspace id (answered_account env now c e o x)
      ≡ is_zalo_account workspace id x
unfolding answered_account
answered-key env now c e none workspace id x = refl
answered-key env now c e (some t) workspace id x = refl

store_answer-outcome :
    (env : OauthEnv) (now user workspace : ℕ) (a : SocialAccount) (c : Credential)
    (e : Option ErrorCode) (o : Option ZaloTokenSet) (db : Db)
    → ((store_answer env now user workspace a c e o db).0
        ≡ (if is_some o then ok tt else err service_unavailable))
      × ((store_answer env now user workspace a c e o db).1.accounts
          ≡ update_where (λ x. x.id == a.id) (answered_account env now c e o) db.accounts)
unfolding store_answer update_account
store_answer-outcome env now user workspace a c e none db = (refl, refl)
store_answer-outcome env now user workspace a c e (some t) db = (refl, refl)

-- The account is connected, without an error, until the tokens' end, with them sealed and numbered on.
pub record IsRenewed (env : OauthEnv) (now : ℕ) (c : Credential) (t : ZaloTokenSet)
    (b : SocialAccount) : Type 0 where
  pub is_back : b.status ≡ connected
  pub until_end : b.token_expires_at ≡ some (now + t.expires_in * 1000)
  pub without_error : b.last_error_code ≡ none
  pub stored :
      b.credential
      ≡ some (record {
        encrypted_access_token = env.encrypt t.access_token;
        encrypted_refresh_token = some (env.encrypt t.refresh_token);
        token_version = c.token_version + 1;
      })

-- A renewal without tokens: the account needs a new login and keeps its old credential.
pub record IsLost (c : Credential) (b : SocialAccount) : Type 0 where
  pub needs_login : b.status ≡ reauth_required
  pub kept : b.credential ≡ some c

answered-IsRenewed :
    (env : OauthEnv) (now : ℕ) (c : Credential) (e : Option ErrorCode) (t : ZaloTokenSet)
    (a : SocialAccount)
    → IsRenewed env now c t (answered_account env now c e (some t) a)
unfolding answered_account
answered-IsRenewed env now c e t a = record {
  is_back = refl;
  until_end = refl;
  without_error = refl;
  stored = refl;
}

answered-IsLost :
    (env : OauthEnv) (now : ℕ) (c : Credential) (e : Option ErrorCode) (a : SocialAccount)
    → a.credential ≡ some c
    → IsLost c (answered_account env now c e none a)
unfolding answered_account
answered-IsLost env now c e a h = record { needs_login = refl; kept = h }

row_after :
    (env : OauthEnv) (now user workspace id : ℕ) (db : Db) (a : SocialAccount) (c : Credential)
    (token : Text)
    → IsRenewable env workspace id db a c token
    → ((do_refresh env now user workspace id true db).0 ≡ (
        if is_some (successful (refresh_access_token env.zalo env.api [] token).0)
        then ok tt
        else err service_unavailable))
      × (find_first
            (is_zalo_account workspace id)
            (do_refresh env now user workspace id true db).1.accounts
          ≡ some (after_renewal env now c (refresh_access_token env.zalo env.api [] token).0 a))
unfolding store_renewed
row_after env now user workspace id db a c token r =
    let answer : OperationResult ZaloTokenSet =
      (refresh_access_token env.zalo env.api [] token).0 in
    let path = renewal_of env now user workspace id db a c token r in
    let outcome =
      store_answer-outcome env now user workspace a c answer.error_code (successful answer) db in
    (
      ap (λ x. x.0) path ∙ outcome.0,
      ap (λ x. find_first (is_zalo_account workspace id) x.1.accounts) path
          ∙ ap (find_first (is_zalo_account workspace id)) outcome.1
          ∙ find_first-update_found (is_zalo_account workspace id) (λ x. x.id == a.id)
              (after_renewal env now c answer)
              (answered-key env now c answer.error_code (successful answer) workspace id)
              db.accounts r.found (==_self a.id),
    )

-- A forced renewal of an account with a refresh token succeeds exactly if Zalo gives tokens. Then the
-- account is CONNECTED with these tokens sealed, the next version and their time of expiry, whatever its
-- status was, be it that an administrator had paused it; else it needs a new login.
pub forced_renewal_outcome :
    (env : OauthEnv) (now user workspace id : ℕ) (db : Db) (a : SocialAccount) (c : Credential)
    (token : Text)
    → IsRenewable env workspace id db a c token
    → (b : SocialAccount) × (find_first
          (is_zalo_account workspace id)
          (do_refresh env now user workspace id true db).1.accounts
        ≡ some b)
      × (((t : ZaloTokenSet) × (successful (refresh_access_token env.zalo env.api [] token).0
              ≡ some t)
            × ((do_refresh env now user workspace id true db).0 ≡ ok tt)
            × IsRenewed env now c t b)
          ⊎ ((successful (refresh_access_token env.zalo env.api [] token).0 ≡ none)
              × ((do_refresh env now user workspace id true db).0 ≡ err service_unavailable)
              × IsLost c b))
forced_renewal_outcome env now user workspace id db a c token r =
    let answer : OperationResult ZaloTokenSet =
      (refresh_access_token env.zalo env.api [] token).0 in
    let (reply, row) = row_after env now user workspace id db a c token r in
    (
      after_renewal env now c answer a,
      row,
      elim (Option-cases (successful answer)) [
        | inl nothing ↦ inr (
          nothing,
          ground (arith, reply, nothing),
          rw nothing (answered-IsLost env now c answer.error_code a r.has_credential),
        )
        | inr (t, tokens) ↦ inl (
          t,
          tokens,
          ground (arith, reply, tokens),
          rw tokens (answered-IsRenewed env now c answer.error_code t a),
        )
      ],
    )
