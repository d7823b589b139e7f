-- ===== src/Zalo/Grants.antt =====
-- The requests for tokens of packages/platform-zalo/src/index.ts: authenticate, refreshAccessToken and
-- requestTokens.
use tool_messager.Prelude.{
  List, Text, [], if◌then◌else◌, is_empty, is_some, none, not, some, trim, ℕ, ◌++◌, ◌==◌, ◌||◌, ◌∷◌,
}
use tool_messager.Platform.{
  OperationResult, authenticates, failed, failure, succeeded, unavailable, zalo_oauth,
  zalo_oauth_input_invalid, zalo_oauth_request_failed, zalo_refresh_token_missing,
  zalo_token_response_invalid,
}
use tool_messager.Zalo.{
  Grant, Reply, Request, ZaloApi, ZaloEnv, ZaloTokenPayload, ZaloTokenSet, authorization_code,
  empty_tokens, is_ok, json, network_error, non_empty, post_tokens, refresh_token_grant, replied,
  reported_oauth, scalar_number, zalo_adapter,
}

unfoldable pub token_set_of : ℕ → ZaloTokenPayload → OperationResult ZaloTokenSet
token_set_of status p = elim (non_empty p.access_token) [
  | none ↦ rejected
  | some access ↦ elim (non_empty p.refresh_token) [
    | none ↦ rejected
    | some refresh ↦
        if not (is_ok status) || is_some p.error
        then rejected
        else elim (scalar_number p.expires_in) [
          | none ↦ failure failed zalo_token_response_invalid
          | some n ↦
              if n == 0
              then failure failed zalo_token_response_invalid
              else succeeded
                  (record { access_token = access; refresh_token = refresh; expires_in = n })
        ]
  ]
]
  where
    rejected : OperationResult ZaloTokenSet
    rejected = failure failed (zalo_oauth (reported_oauth p.error_name p.error status))

unfoldable pub read_tokens : Reply ZaloTokenPayload → OperationResult ZaloTokenSet
unfolding token_set_of
read_tokens network_error = failure failed zalo_oauth_request_failed
read_tokens (replied status body) = token_set_of status (json empty_tokens body)

module _ (env : ZaloEnv) (api : ZaloApi) (log : List Request) where
  unfoldable pub request_tokens : Grant → OperationResult ZaloTokenSet × List Request
  unfolding read_tokens zalo_adapter unavailable
  request_tokens grant =
      if is_empty (trim env.client_id) || is_empty (trim env.client_secret)
      then (unavailable (zalo_adapter env) authenticates, log)
      else (let sent = post_tokens (trim env.client_id) (trim env.client_secret) grant in
          (read_tokens (api.tokens sent), log ++ sent ∷ []))

  unfoldable pub authenticate_code :
      (code code_verifier : Text) → OperationResult ZaloTokenSet × List Request
  unfolding request_tokens
  authenticate_code code verifier =
      if not (zalo_adapter env).is_configured
      then (unavailable (zalo_adapter env) authenticates, log)
      else (if is_empty code || is_empty verifier
          then (failure failed zalo_oauth_input_invalid, log)
          else request_tokens (authorization_code code verifier))

  unfoldable pub refresh_access_token : Text → OperationResult ZaloTokenSet × List Request
  unfolding request_tokens
  refresh_access_token token =
      if not (zalo_adapter env).is_configured
      then (unavailable (zalo_adapter env) authenticates, log)
      else (if is_empty token
          then (failure failed zalo_refresh_token_missing, log)
          else request_tokens (refresh_token_grant token))
