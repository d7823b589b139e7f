-- ===== src/Zalo/Tokens.antt =====
-- What ZaloAdapter.authenticate and refreshAccessToken accept as a token set
-- (packages/platform-zalo/src/index.ts).
use tool_messager.Prelude.{
  Bool, List, Text, arith, false, if◌then◌else◌, is_empty, none, some, true, ℕ, ◌<◌, ◌≡◌,
}
use tool_messager.Zalo.{
  Grant, Reply, Request, ZaloApi, ZaloEnv, ZaloTokenPayload, ZaloTokenSet, empty_tokens, json,
  network_error, replied,
}
use tool_messager.Zalo.Grants.{
  authenticate_code, read_tokens, refresh_access_token, request_tokens, token_set_of,
}
use tool_messager.Platform.{
  Adapter, ErrorCode, OperationResult, OperationStatus, PlatformCapability, failure, success,
  unavailable,
}

-- Both tokens are there, and the lifetime is positive.
pub IsUsable : ZaloTokenSet → Type 0
IsUsable t =
    (is_empty t.access_token ≡ false) × (is_empty t.refresh_token ≡ false) × (0 < t.expires_in)

-- A result that carries tokens is a success and carries no error, and the tokens are usable.
pub IsSound : OperationResult ZaloTokenSet → Type 0
IsSound r =
    (t : ZaloTokenSet)
    → r.payload ≡ some t
    → (r.status ≡ success) × (r.error_code ≡ none) × IsUsable t

token_set_of-IsSound : (status : ℕ) (p : ZaloTokenPayload) → IsSound (token_set_of status p)
unfolding IsSound IsUsable token_set_of
token_set_of-IsSound status p t h =
    (ground arith, ground arith, (ground arith, ground arith, ground arith))

unavailable-IsSound : (a : Adapter) (c : PlatformCapability) → IsSound (unavailable a c)
unfolding IsSound unavailable
unavailable-IsSound a c t h = (ground arith, ground arith, absurd (ground arith))

read_tokens-IsSound : (r : Reply ZaloTokenPayload) → IsSound (read_tokens r)
unfolding read_tokens
read_tokens-IsSound network_error = unfold IsSound in λ t h. absurd (cc)
read_tokens-IsSound (replied status body) = token_set_of-IsSound status (json empty_tokens body)

failure-IsSound : (s : OperationStatus) (e : ErrorCode) → IsSound (failure s e)
unfolding IsSound
failure-IsSound s e t h = absurd (cc)

IsSound-if :
    (b : Bool) (r s : OperationResult ZaloTokenSet × List Request)
    → IsSound r.0
    → IsSound s.0
    → IsSound (if b then r else s).0
IsSound-if true r s hr hs = hr
IsSound-if false r s hr hs = hs

ruleset soundness = (read_tokens-IsSound, failure-IsSound, unavailable-IsSound, IsSound-if)

module _ (env : ZaloEnv) (api : ZaloApi) (log : List Request) where
  request_tokens-IsSound : (g : Grant) → IsSound (request_tokens env api log g).0
  unfolding request_tokens
  request_tokens-IsSound g = search soundness

  -- Whatever Zalo answers to an authorization code, a token set comes back only as a success without
  -- an error, with both tokens non-empty and a positive lifetime.
  pub authenticate_code-IsSound :
      (code verifier : Text) → IsSound (authenticate_code env api log code verifier).0
  unfolding authenticate_code
  authenticate_code-IsSound code verifier = search soundness

  -- The same of a token refresh.
  pub refresh_access_token-IsSound :
      (token : Text) → IsSound (refresh_access_token env api log token).0
  unfolding refresh_access_token
  refresh_access_token-IsSound token = search soundness
