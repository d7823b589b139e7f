-- ===== src/Zalo.antt =====
-- packages/platform-zalo/src/index.ts: the Zalo OA adapter. `fetch` is a parameter, a record of what
-- Zalo answers to each request; the requests that were made are kept in a log.
pub mod Grants
pub mod Calls
pub mod Sending
pub mod Tokens
pub mod Info
use tool_messager.Prelude.{
  Bool, Option, Text, decimal, false, if◌then◌else◌, is_empty, is_zero, leb, ltb, none, not,
  number_of, some, trim, true, ℕ, ℤ, ◌&&◌, ◌==◌,
}
use tool_messager.Shared.{not_supported, permission_required, supported, zalo}
use tool_messager.Platform.{
  Adapter, CapabilityMatrix, ReportedError, authenticates, friends, group_create, http, media,
  messaging, named, numbered,
}

-- The environment; an unset variable is the empty text, which the code treats alike.
pub record ZaloEnv : Type 0 where
  pub client_id : Text
  pub client_secret : Text
  pub redirect_uri : Text

pub record ZaloTokenSet : Type 0 where
  pub access_token : Text
  pub refresh_token : Text
  pub expires_in : ℕ

-- A JSON field of type `string | number`, with its truth value, String and Number. Zalo sends ids, times
-- and lifetimes as whole numbers or their decimal digits; other spellings that Number reads (`1e3`,
-- fractions) are outside the model, and read as no number.
pub data Scalar : Type 0 where
  text : Text → Scalar
  number : ℕ → Scalar

abbrev pub is_truthy : Option Scalar → Bool
is_truthy none = false
is_truthy (some (text t)) = not (is_empty t)
is_truthy (some (number n)) = not (n == 0)

abbrev pub string_of : Scalar → Text
string_of (text t) = t
string_of (number n) = decimal n

abbrev pub scalar_number : Option Scalar → Option ℕ
scalar_number none = none
scalar_number (some (text t)) = number_of t
scalar_number (some (number n)) = some n

-- `...(field ? { field } : {})`: an empty text is dropped.
abbrev pub non_empty : Option Text → Option Text
non_empty none = none
non_empty (some t) = if is_empty t then none else some t

-- `a ?? b`
abbrev pub first_given {ℓ} : {A : Type ℓ} → Option A → Option A → Option A
first_given none b = b
first_given (some a) b = some a

pub record ZaloOaInfo : Type 0 where
  pub oaid : Text
  pub name : Text
  pub oa_alias : Option Text
  pub avatar : Option Text
  pub cover : Option Text
  pub description : Option Text
  pub is_verified : Option Bool
  pub oa_type : Option ℕ
  pub category_name : Option Text
  pub follower_count : Option ℕ
  pub package_name : Option Text
  pub package_valid_through_date : Option Text
  pub package_auto_renew_date : Option Text
  pub linked_zca : Option Text

pub record ZaloTokenPayload : Type 0 where
  pub access_token : Option Text
  pub refresh_token : Option Text
  pub expires_in : Option Scalar
  pub error : Option ReportedError
  pub error_name : Option Text

pub record ZaloEnvelope (T : Type 0) : Type 0 where
  pub content : Option T
  pub error : Option ℤ

pub record ZaloMessageResponse : Type 0 where
  pub message_id : Option Scalar

pub record ZaloRawOaInfo : Type 0 where
  pub oaid : Option Scalar
  pub oa_id : Option Scalar
  pub name : Option Text
  pub oa_alias : Option Text
  pub avatar : Option Text
  pub cover : Option Text
  pub description : Option Text
  pub is_verified : Option Bool
  pub oa_type : Option ℕ
  pub cate_name : Option Text
  pub num_follower : Option ℕ
  pub package_name : Option Text
  pub package_valid_through_date : Option Text
  pub package_auto_renew_date : Option Text
  pub linked_upper_zca : Option Text
  pub linked_zca : Option Text

pub data Grant : Type 0 where
  authorization_code : (code verifier : Text) → Grant
  refresh_token_grant : Text → Grant

pub data Request : Type 0 where
  get_oa : (access_token : Text) → Request
  post_advisory : (access_token recipient text : Text) → Request
  post_tokens : (app_id secret : Text) → Grant → Request

-- `fetch` throws, or gives a status and a body, which may not parse as JSON.
pub data Reply (P : Type 0) : Type 0 where
  network_error : Reply P
  replied : (status : ℕ) → Option P → Reply P

pub record ZaloApi : Type 0 where
  pub oa : Request → Reply (ZaloEnvelope ZaloRawOaInfo)
  pub advisory : Request → Reply (ZaloEnvelope ZaloMessageResponse)
  pub tokens : Request → Reply ZaloTokenPayload

-- `response.ok`
abbrev pub is_ok : ℕ → Bool
is_ok status = leb 200 status && ltb status 300

-- `json`: a body that does not parse is the empty object.
abbrev pub json {ℓ} : {P : Type ℓ} → P → Option P → P
json empty none = empty
json empty (some p) = p

abbrev pub empty_envelope : {T : Type 0} → ZaloEnvelope T
empty_envelope = record { content = none; error = none }

abbrev pub empty_tokens : ZaloTokenPayload
empty_tokens = record {
  access_token = none;
  refresh_token = none;
  expires_in = none;
  error = none;
  error_name = none;
}

-- `payload.error !== 0`
abbrev pub is_error : Option ℤ → Bool
is_error none = true
is_error (some e) = not (is_zero e)

-- `payload.error ?? response.status`
abbrev pub reported : Option ℤ → ℕ → ReportedError
reported none status = http status
reported (some e) status = numbered e

abbrev pub reported_oauth : Option Text → Option ReportedError → ℕ → ReportedError
reported_oauth none none status = http status
reported_oauth none (some e) status = e
reported_oauth (some n) e status = named n

unfoldable pub zalo_matrix : CapabilityMatrix
zalo_matrix authenticates = supported
zalo_matrix friends = not_supported
zalo_matrix messaging = supported
zalo_matrix media = supported
zalo_matrix group_create = not_supported
zalo_matrix _ = permission_required

unfoldable pub zalo_adapter : ZaloEnv → Adapter
unfolding zalo_matrix
zalo_adapter env = record {
  platform = zalo;
  capabilities = zalo_matrix;
  is_configured =
      not (is_empty env.client_id)
      && not (is_empty env.client_secret)
      && not (is_empty env.redirect_uri);
}

unfoldable pub callback_url : ZaloEnv → Option Text
callback_url env = non_empty (some (trim env.redirect_uri))

-- The URL's endpoint is a constant; its parameters stand in the order in which they are set.
pub record AuthorizationUrl : Type 0 where
  pub app_id : Text
  pub redirect_uri : Text
  pub code_challenge : Text
  pub state : Text

-- `input.redirectUri?.trim() || this.callbackUrl()`; `none` is the thrown error.
unfoldable pub create_authorization_url :
    ZaloEnv → (state code_challenge : Text) → Option Text → Option AuthorizationUrl
unfolding callback_url
create_authorization_url env state code_challenge redirect =
    build (non_empty (some (trim env.client_id)))
      (first_given (non_empty (trimmed redirect)) (callback_url env))
  where
    trimmed : Option Text → Option Text
    trimmed none = none
    trimmed (some t) = some (trim t)

    build : Option Text → Option Text → Option AuthorizationUrl
    build none r = none
    build (some a) none = none
    build (some a) (some r) =
        some
          (record { app_id = a; redirect_uri = r; code_challenge = code_challenge; state = state })
