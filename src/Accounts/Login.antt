-- ===== src/Accounts/Login.antt =====
-- What a callback of Zalo (`complete` of apps/api/src/accounts/zalo-oauth.service.ts) can do: it uses
-- up the state of its login.
use tool_messager.Prelude.{
  Bool, Bool-cases, Option, Option-cases, Result-cases, Text, [], any, any-find_first,
  any-update_found, ap, arith, count_where, err, false, find_first, find_first_fits, inl, inr, ltb,
  some, text_eq, true, ℕ, ◌≡◌, ◌≤◌, ◌⊎◌,
}
use tool_messager.Shared.{zalo}
use tool_messager.Zalo.{ZaloOaInfo, ZaloTokenSet, non_empty}
use tool_messager.Zalo.Grants.{authenticate_code}
use tool_messager.Zalo.Calls.{get_account_info}
use tool_messager.Store.{Db, OauthState}
use tool_messager.Policy.{assert_account_capacity}
use tool_messager.Policy.Entitled.{entitlements_writes}
use tool_messager.Workspaces.{bad_request, with_policy}
use tool_messager.Accounts.{OauthEnv, is_account_key, successful, update_account}
use tool_messager.Accounts.Oauth.{
  OauthCallback, claim_state, complete, connect, is_claimable, is_open_state, matches_callback,
  save_connected_account, state_given, store_account, use_state,
}

-- The capacity check changes at most the subscriptions.
pub account_check_writes :
    (now workspace : ℕ) (db : Db)
    → (with_policy (assert_account_capacity now workspace) db).1 ≡ record db {
      subscriptions = (with_policy (assert_account_capacity now workspace) db).1.subscriptions;
    }
unfolding with_policy assert_account_capacity
account_check_writes now workspace db = ground (arith, entitlements_writes now db workspace)

save-oauth_states :
    (env : OauthEnv) (now user workspace : ℕ) (i : ZaloOaInfo) (t : ZaloTokenSet) (db : Db)
    → (save_connected_account env now user workspace i t db).1.oauth_states ≡ db.oauth_states
unfolding save_connected_account store_account update_account
save-oauth_states env now user workspace i t db =
    elim (Option-cases (find_first (is_account_key workspace zalo i.oaid) db.accounts)) [
      | inl new_one ↦
          ground (
            arith,
            new_one,
            ap (λ (d : Db). d.oauth_states) (account_check_writes now workspace db),
          )
      | inr (a, found) ↦ ground (arith, found)
    ]

connect-oauth_states :
    (env : OauthEnv) (now : ℕ) (input : OauthCallback) (auth_code : Text) (s : OauthState) (db : Db)
    → (connect env now input auth_code s db).1.oauth_states ≡ db.oauth_states
unfolding connect
connect-oauth_states env now input auth_code s db =
    elim (Option-cases (env.decrypt s.encrypted_code_verifier)) [
      | inl unreadable ↦ ground (arith, unreadable)
      | inr (v, read_v) ↦
          elim (Option-cases (successful (authenticate_code env.zalo env.api [] auth_code v).0)) [
            | inl no_tokens ↦ ground (arith, read_v, no_tokens)
            | inr (t, ht) ↦
                elim (Option-cases
                  (successful (get_account_info env.zalo env.api [] (some t.access_token)).0)) [
                    | inl no_info ↦ ground (arith, read_v, ht, no_info)
                    | inr (i, hi) ↦ ground (
                      arith,
                      read_v,
                      ht,
                      hi,
                      save-oauth_states env now s.user_id s.workspace_id i t db,
                    )
                  ]
          ]
    ]

abbrev pub has_hash : Text → OauthState → Bool
has_hash hash s = text_eq s.state_hash hash

module _ (env : OauthEnv) (now : ℕ) (state : Text) (db : Db) where
  -- A claim is refused and changes nothing, or leaves no open state of this hash.
  claim_closes :
      count_where (has_hash (env.hash state)) db.oauth_states ≤ 1
      → (claim_state env now state db ≡ (err bad_request, db))
        ⊎ (any (is_open_state (env.hash state)) (claim_state env now state db).1.oauth_states
            ≡ false)
  unfolding claim_state
  claim_closes one =
      elim (Option-cases (find_first (is_open_state (env.hash state)) db.oauth_states)) [
        | inl missing ↦ inl (ground (arith, missing))
        | inr (s, found) ↦ elim (Bool-cases (ltb now s.expires_at)) [
          | inr late ↦ inl (ground (arith, found, late))
          | inl alive ↦ elim (Bool-cases (matches_callback env.zalo s.redirect_uri)) [
            | inr elsewhere ↦ inl (ground (arith, found, alive, elsewhere))
            | inl right ↦ inr (
                ground (
                  arith,
                  found,
                  alive,
                  right,
                  any-update_found (is_claimable now s.id) (is_open_state (env.hash state))
                      (has_hash (env.hash state)) (use_state now) (λ x. ground arith)
                      (λ x h. ground arith) db.oauth_states {a = s} found
                      (is_claimable_found s found alive) one,
                ))
          ]
        ]
      ]
    where
      is_claimable_found :
          (s : OauthState)
          → find_first (is_open_state (env.hash state)) db.oauth_states ≡ some s
          → ltb now s.expires_at ≡ true
          → is_claimable now s.id s ≡ true
      is_claimable_found s found alive =
          ground
            (arith, alive, find_first_fits (is_open_state (env.hash state)) db.oauth_states found)

  claim_refused :
      any (is_open_state (env.hash state)) db.oauth_states ≡ false
      → claim_state env now state db ≡ (err bad_request, db)
  unfolding claim_state
  claim_refused closed =
      ground (arith, closed, any-find_first (is_open_state (env.hash state)) db.oauth_states)

-- A callback that gets past the claim of its state leaves no open state with the state's hash; another
-- one changes nothing.
complete_closes :
    (env : OauthEnv) (now : ℕ) (input : OauthCallback) (db : Db) {state : Text}
    → state_given input ≡ some state
    → count_where (has_hash (env.hash state)) db.oauth_states ≤ 1
    → ((complete env now input db).1 ≡ db)
      ⊎ (any (is_open_state (env.hash state)) (complete env now input db).1.oauth_states ≡ false)
unfolding complete
complete_closes env now input db {state} given one = elim (Option-cases (non_empty input.error)) [
  | inr (e, failed_there) ↦ inl (ground (arith, failed_there))
  | inl fine ↦ elim (Option-cases (non_empty input.auth_code)) [
    | inl missing ↦ inl (ground (arith, fine, missing))
    | inr (c, coded) ↦ elim (Result-cases (claim_state env now state db)) [
      | inl (e, t, refused_claim) ↦ elim (claim_closes env now state db one) [
        | inl same ↦ inl (ground (arith, fine, coded, given, same))
        | inr closed ↦ inr (ground (arith, fine, coded, given, refused_claim, closed))
      ]
      | inr (s, t, claimed) ↦ elim (claim_closes env now state db one) [
        | inl same ↦ absurd (ground (arith, same, claimed))
        | inr closed ↦ inr (
            ground (
              arith,
              fine,
              coded,
              given,
              claimed,
              closed,
              connect-oauth_states env now input c s t,
            ))
      ]
    ]
  ]
]

complete_refused :
    (env : OauthEnv) (now : ℕ) (input : OauthCallback) (db : Db) {state : Text}
    → state_given input ≡ some state
    → any (is_open_state (env.hash state)) db.oauth_states ≡ false
    → complete env now input db ≡ (err bad_request, db)
unfolding complete
complete_refused env now input db {state} given closed =
    ground (arith, given, claim_refused env now state db closed)

-- Zalo's state works once: where hashes of states are unique, a callback either changes nothing, or any
-- later callback with its state, with whatever code and account id, is refused and changes nothing,
-- even if the first one failed at Zalo.
pub complete_once :
    (env : OauthEnv) (now later : ℕ) (input : OauthCallback) (auth_code oa_id : Option Text)
    (db : Db) {state : Text}
    → state_given input ≡ some state
    → count_where (has_hash (env.hash state)) db.oauth_states ≤ 1
    → ((complete env now input db).1 ≡ db)
      ⊎ (complete env later
            (record input { auth_code = auth_code; oa_id = oa_id })
            (complete env now input db).1
          ≡ (err bad_request, (complete env now input db).1))
complete_once env now later input auth_code oa_id db given one =
    elim (complete_closes env now input db given one) [
      | inl same ↦ inl same
      | inr closed ↦ inr (
          complete_refused env later (record input { auth_code = auth_code; oa_id = oa_id })
            (complete env now input db).1 given closed)
    ]
