-- ===== src/Tests/Intake.antt =====
-- Accounts and webhook events at concrete inputs.
use tool_messager.Prelude.{
  [], arith, codes, count_where, err, find_first, none, number_of, ok, refl, some, starts_with,
  text_eq, trim, true, ◌++◌, ◌∷◌, ◌≡◌, ◌⊎◌,
}
use tool_messager.Shared.{zalo}
use tool_messager.Zalo.{ZaloOaInfo, ZaloTokenSet, text}
use tool_messager.Zalo.Grants.{authenticate_code, refresh_access_token}
use tool_messager.Zalo.Calls.{get_account_info}
use tool_messager.Store.{Db, OauthState, QueueEntry, SocialAccount, webhook_process}
use tool_messager.Outbound.{is_suppressed}
use tool_messager.Workspaces.{bad_request, service_unavailable}
use tool_messager.Worker.{run_entry}
use tool_messager.Accounts.{is_account_key, successful}
use tool_messager.Accounts.Oauth.{
  claim_state, complete, connect, save_connected_account, store_account,
}
use tool_messager.Accounts.Refresh.{do_refresh, is_zalo_account}
use tool_messager.Accounts.Intake.{
  accept, accepted, expected_mac, is_probe, judge_envelope, official_account_of, receive,
  receive_once,
}
use tool_messager.Accounts.Received.{IsFirst, IsGenuine, accept_guarded, accept_twice, with_event}
use tool_messager.Accounts.Withdrawal.{withdrawal_takes_effect}
use tool_messager.Accounts.Login.{complete_once}
use tool_messager.Accounts.Connected.{IsConnectedRow, IsLogin, complete_sound}
use tool_messager.Accounts.Renewal.{IsLost, IsRenewed, forced_renewal_outcome}
use tool_messager.Tests.Samples.{account, contact, quiet_db}
use tool_messager.Tests.Situations.{world, zalo_env}
use tool_messager.Tests.Fixtures.{
  answering_api, callback, intake_env, limited_account, limited_db, login_db, oauth_env, raw_body,
  sealed_credential, signature, unfollow_payload,
}

accept_guarded_example :
    ((accept intake_env 1000 raw_body signature unfollow_payload quiet_db).1 ≡ quiet_db)
    ⊎ (IsGenuine intake_env 1000 raw_body signature unfollow_payload
        × ((a : SocialAccount) × IsFirst intake_env unfollow_payload quiet_db a
            × (accept intake_env 1000 raw_body signature unfollow_payload quiet_db
                ≡ (ok accepted, with_event intake_env 1000 unfollow_payload a quiet_db))))
accept_guarded_example = accept_guarded intake_env 1000 raw_body signature unfollow_payload quiet_db

accept_twice_example :
    ((accept intake_env 1000 raw_body signature unfollow_payload quiet_db).1 ≡ quiet_db)
    ⊎ ((accept
          (record intake_env { queue_up = true })
          1500
          raw_body
          signature
          unfollow_payload
          (accept intake_env 1000 raw_body signature unfollow_payload quiet_db).1).1
        ≡ (accept intake_env 1000 raw_body signature unfollow_payload quiet_db).1)
accept_twice_example =
    accept_twice intake_env 1000 1500 true raw_body signature raw_body signature unfollow_payload
      quiet_db

abbrev accepted_db : Db
accepted_db = (accept intake_env 1000 raw_body signature unfollow_payload quiet_db).1

withdrawal_takes_effect_example :
    (entry : QueueEntry) × (accepted_db.queue ≡ quiet_db.queue ++ entry ∷ [])
    × (entry.queue ≡ webhook_process)
    × ((run_entry world 2000 entry accepted_db).0 ≡ ok tt)
    × (is_suppressed (run_entry world 2000 entry accepted_db).1 1 contact ≡ true)
unfolding accept is_probe judge_envelope trim text_eq number_of expected_mac receive
    official_account_of find_first receive_once starts_with
withdrawal_takes_effect_example =
    withdrawal_takes_effect intake_env world 1000 2000 raw_body signature unfollow_payload quiet_db
      {db' = accepted_db} account contact {name = codes "user_unfollow"} {user = text (codes "u6")}
      refl (record { oa = codes "oa"; names_oa = refl; is_for = refl; unseen = refl }) refl refl
      refl refl refl refl refl

complete_once_example :
    ((complete oauth_env 20 callback login_db).1 ≡ login_db)
    ⊎ (complete oauth_env 30
          (record callback { auth_code = some (codes "d"); oa_id = none })
          (complete oauth_env 20 callback login_db).1
        ≡ (err bad_request, (complete oauth_env 20 callback login_db).1))
unfolding count_where text_eq
complete_once_example =
    complete_once oauth_env 20 30 callback (some (codes "d")) none login_db {state = codes "st"}
      refl (omega arith)

complete_sound_example :
    (s : OauthState) × (t : ZaloTokenSet) × (i : ZaloOaInfo) × IsLogin oauth_env 20 callback
      login_db s t i
    × ((b : SocialAccount) × (find_first
            (is_account_key s.workspace_id zalo i.oaid)
            (complete oauth_env 20 callback login_db).1.accounts
          ≡ some b)
        × IsConnectedRow oauth_env t b)
unfolding complete claim_state find_first text_eq trim count_where connect authenticate_code
    number_of get_account_info save_connected_account store_account
complete_sound_example =
    complete_sound oauth_env 20 callback login_db {id = 5}
      {db' = (complete oauth_env 20 callback login_db).1} refl

forced_renewal_outcome_example :
    (b : SocialAccount) × (find_first
        (is_zalo_account 1 5)
        (do_refresh oauth_env 20 2 1 5 true limited_db).1.accounts
      ≡ some b)
    × (((t : ZaloTokenSet) × (successful
              (refresh_access_token zalo_env answering_api [] (codes "r")).0
            ≡ some t)
          × ((do_refresh oauth_env 20 2 1 5 true limited_db).0 ≡ ok tt)
          × IsRenewed oauth_env 20 sealed_credential t b)
        ⊎ ((successful (refresh_access_token zalo_env answering_api [] (codes "r")).0 ≡ none)
            × ((do_refresh oauth_env 20 2 1 5 true limited_db).0 ≡ err service_unavailable)
            × IsLost sealed_credential b))
unfolding find_first
forced_renewal_outcome_example =
    forced_renewal_outcome oauth_env 20 2 1 5 limited_db limited_account sealed_credential
      (codes "r")
      (record {
        found = refl;
        has_credential = refl;
        sealed = codes "r";
        has_token = refl;
        unsealed = refl;
      })
