-- ===== src/Zalo/Info.antt =====
-- What ZaloAdapter.getAccountInfo reads (packages/platform-zalo/src/index.ts).
use tool_messager.Prelude.{
  List, Option, Text, arith, decimal-nonempty, false, is_empty, none, some, true, ℕ, ◌≡◌,
}
use tool_messager.Zalo.{
  Reply, Request, Scalar, ZaloApi, ZaloEnv, ZaloEnvelope, ZaloOaInfo, ZaloRawOaInfo, empty_envelope,
  get_oa, is_truthy, json, network_error, number, replied, string_of, text,
}
use tool_messager.Zalo.Calls.{get_account_info, oa_info_of, read_oa_info}
use tool_messager.Platform.{OperationResult, success, unavailable}

-- A result that carries an account is a success, and the account has an id and a name.
pub HasIdentity : OperationResult ZaloOaInfo → Type 0
HasIdentity r =
    (i : ZaloOaInfo)
    → r.payload ≡ some i
    → (r.status ≡ success) × (is_empty i.oaid ≡ false) × (is_empty i.name ≡ false)

string_of-nonempty : (x : Scalar) → is_truthy (some x) ≡ true → is_empty (string_of x) ≡ false
string_of-nonempty (text t) h = ground arith
string_of-nonempty (number n) h = decimal-nonempty n

oa_info_of-HasIdentity :
    (status : ℕ) (p : ZaloEnvelope ZaloRawOaInfo) → HasIdentity (oa_info_of status p)
unfolding HasIdentity oa_info_of
oa_info_of-HasIdentity status p i h = grind (arith, string_of-nonempty)

read_oa_info-HasIdentity : (r : Reply (ZaloEnvelope ZaloRawOaInfo)) → HasIdentity (read_oa_info r)
unfolding read_oa_info
read_oa_info-HasIdentity network_error = unfold HasIdentity in λ i h. absurd (cc)
read_oa_info-HasIdentity (replied status body) =
    oa_info_of-HasIdentity status (json empty_envelope body)

-- Whatever Zalo answers, an account comes back only as a success, with an id and a name that are not
-- empty.
pub get_account_info-HasIdentity :
    (env : ZaloEnv) (api : ZaloApi) (log : List Request) (token : Option Text)
    → HasIdentity (get_account_info env api log token).0
unfolding HasIdentity get_account_info unavailable
get_account_info-HasIdentity env api log none i h = absurd (ground arith)
get_account_info-HasIdentity env api log (some t) i h =
    grind (arith, read_oa_info-HasIdentity (api.oa (get_oa t)) i)
