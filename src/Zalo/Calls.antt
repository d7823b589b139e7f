-- ===== src/Zalo/Calls.antt =====
-- The calls of packages/platform-zalo/src/index.ts with an access token: getAccountInfo and sendMessage.
use tool_messager.Prelude.{
  List, Option, Text, [], if◌then◌else◌, is_empty, is_some, length, ltb, none, not, some, trim, ℕ,
  ◌++◌, ◌||◌, ◌∷◌,
}
use tool_messager.Platform.{
  OperationResult, authenticates, failed, failure, messaging, succeeded, unavailable,
  zalo_access_token_missing, zalo_api, zalo_message_input_invalid, zalo_message_request_failed,
  zalo_oa_request_failed, zalo_oa_response_invalid,
}
use tool_messager.Zalo.{
  Reply, Request, Scalar, ZaloApi, ZaloEnv, ZaloEnvelope, ZaloMessageResponse, ZaloOaInfo,
  ZaloRawOaInfo, empty_envelope, first_given, get_oa, is_error, is_ok, is_truthy, json,
  network_error, non_empty, post_advisory, replied, reported, string_of, zalo_adapter,
}

unfoldable pub oa_info_of : ℕ → ZaloEnvelope ZaloRawOaInfo → OperationResult ZaloOaInfo
oa_info_of status p = if not (is_ok status) || is_error p.error then rejected else elim p.content [
  | none ↦ rejected
  | some raw ↦ identify raw (first_given raw.oaid raw.oa_id)
]
  where
    rejected : OperationResult ZaloOaInfo
    rejected = failure failed (zalo_api (reported p.error status))

    describe : ZaloRawOaInfo → Text → Text → OperationResult ZaloOaInfo
    describe raw id name = succeeded (record {
      oaid = id;
      name = name;
      oa_alias = non_empty raw.oa_alias;
      avatar = non_empty raw.avatar;
      cover = non_empty raw.cover;
      description = non_empty raw.description;
      is_verified = raw.is_verified;
      oa_type = raw.oa_type;
      category_name = non_empty raw.cate_name;
      follower_count = raw.num_follower;
      package_name = non_empty raw.package_name;
      package_valid_through_date = non_empty raw.package_valid_through_date;
      package_auto_renew_date = non_empty raw.package_auto_renew_date;
      linked_zca =
          if is_some (non_empty raw.linked_upper_zca) || is_some (non_empty raw.linked_zca)
          then first_given raw.linked_upper_zca raw.linked_zca
          else none;
    })

    identify : ZaloRawOaInfo → Option Scalar → OperationResult ZaloOaInfo
    identify raw none = failure failed zalo_oa_response_invalid
    identify raw (some id) = elim (non_empty raw.name) [
      | none ↦ failure failed zalo_oa_response_invalid
      | some name ↦
          if is_truthy (some id)
          then describe raw (string_of id) name
          else failure failed zalo_oa_response_invalid
    ]

unfoldable pub read_oa_info : Reply (ZaloEnvelope ZaloRawOaInfo) → OperationResult ZaloOaInfo
unfolding oa_info_of
read_oa_info network_error = failure failed zalo_oa_request_failed
read_oa_info (replied status body) = oa_info_of status (json empty_envelope body)

-- `payload.data?.message_id`
abbrev pub sent_id : Option ZaloMessageResponse → Option Scalar
sent_id none = none
sent_id (some m) = m.message_id

unfoldable pub message_id_of : ℕ → ZaloEnvelope ZaloMessageResponse → OperationResult Text
message_id_of status p = elim (sent_id p.content) [
  | none ↦ failure failed (zalo_api (reported p.error status))
  | some id ↦
      if not (is_ok status) || is_error p.error || not (is_truthy (some id))
      then failure failed (zalo_api (reported p.error status))
      else succeeded (string_of id)
]

unfoldable pub read_message_id : Reply (ZaloEnvelope ZaloMessageResponse) → OperationResult Text
unfolding message_id_of
read_message_id network_error = failure failed zalo_message_request_failed
read_message_id (replied status body) = message_id_of status (json empty_envelope body)

module _ (env : ZaloEnv) (api : ZaloApi) (log : List Request) where
  unfoldable pub get_account_info : Option Text → OperationResult ZaloOaInfo × List Request
  unfolding read_oa_info zalo_adapter unavailable
  get_account_info access_token =
      if not (zalo_adapter env).is_configured
      then (unavailable (zalo_adapter env) authenticates, log)
      else elim (non_empty access_token) [
        | none ↦ (failure failed zalo_access_token_missing, log)
        | some token ↦ (read_oa_info (api.oa (get_oa token)), log ++ get_oa token ∷ [])
      ]

  unfoldable pub send_message :
      Option Text → (recipient content : Text) → OperationResult Text × List Request
  unfolding read_message_id zalo_adapter unavailable
  send_message access_token recipient content =
      if not (zalo_adapter env).is_configured
      then (unavailable (zalo_adapter env) messaging, log)
      else elim (non_empty access_token) [
        | none ↦ (failure failed zalo_access_token_missing, log)
        | some token ↦
            if is_empty (trim recipient)
              || is_empty (trim content)
              || ltb 2000 (length (trim content))
            then (failure failed zalo_message_input_invalid, log)
            else (let sent = post_advisory token recipient (trim content) in
                (read_message_id (api.advisory sent), log ++ sent ∷ []))
      ]
