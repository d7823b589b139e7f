-- ===== src/Tests/Rules.antt =====
-- The rules of packages/ at concrete inputs.
use tool_messager.Prelude.{
  Text, [], codes, digits_of, false, is_empty, length, pos, refl, some, starts_with, trim, true,
  ◌++◌, ◌↔◌, ◌∷◌, ◌≡◌, ◌≤◌,
}
use tool_messager.Shared.{SafetyContext, allowed, evaluate_message_safety, opted_in, supported}
use tool_messager.Shared.Safety.{IsSendable, safety_allowed_iff}
use tool_messager.Platform.{Adapter, tiktok_adapter}
use tool_messager.Phone.Form.{IsInternational, normalize_phone-IsInternational}
use tool_messager.Imports.{escape_csv}
use tool_messager.Imports.Csv.{read_field, read_field-escape_csv}
use tool_messager.Zalo.Calls
use tool_messager.Zalo.{
  Scalar, ZaloApi, network_error, post_advisory, replied, string_of, text, zalo_adapter,
}
use tool_messager.Zalo.Grants.{authenticate_code}
use tool_messager.Phone.{international, normalize_digits, normalize_phone}
use tool_messager.Zalo.Sending.{IsGiven, send_message_success}
use tool_messager.Zalo.Tokens.{IsSound, authenticate_code-IsSound}
use tool_messager.Tests.Situations.{zalo_env}

abbrev promotion : SafetyContext
promotion = record {
  consent_status = opted_in;
  suppressed = false;
  has_permission = true;
  capability = supported;
  within_rate_limit = true;
  promotional = true;
}

safety_allowed_iff_example : (evaluate_message_safety promotion ≡ allowed) ↔ IsSendable promotion
safety_allowed_iff_example = safety_allowed_iff promotion

abbrev idle_adapter : Adapter
idle_adapter = tiktok_adapter [] []

normalize_phone-IsInternational_example : IsInternational (codes "+84912345678")
unfolding normalize_phone normalize_digits digits_of international starts_with
normalize_phone-IsInternational_example =
    normalize_phone-IsInternational (some (codes "0912345678")) (codes "+84912345678") refl

read_field-escape_csv_example :
    read_field (escape_csv (codes "a,b") ++ 44 ∷ codes "c") ≡ (codes "a,b", 44 ∷ codes "c")
read_field-escape_csv_example = read_field-escape_csv (codes "a,b") (codes "c")

abbrev lively : ZaloApi
lively = record {
  oa = λ r. network_error;
  advisory = λ r. replied 200 (
      some record {
        content = some record { message_id = some (text (codes "m1")) };
        error = some (pos 0);
      });
  tokens = λ r. network_error;
}

send_message_success_example :
    ((zalo_adapter zalo_env).is_configured ≡ true)
    × (is_empty (trim (codes "u6")) ≡ false)
    × (is_empty (trim (codes "Hi")) ≡ false)
    × (length (trim (codes "Hi")) ≤ 2000)
    × ((t : Text) × (some (codes "token") ≡ some t)
        × (is_empty t ≡ false)
        × ((Calls.send_message zalo_env lively []
              (some (codes "token"))
              (codes "u6")
              (codes "Hi")).1
            ≡ [] ++ post_advisory t (codes "u6") (trim (codes "Hi")) ∷ []))
    × ((id : Scalar) × ((Calls.send_message zalo_env lively []
            (some (codes "token"))
            (codes "u6")
            (codes "Hi")).0.payload
          ≡ some (string_of id))
        × IsGiven id)
unfolding Calls.send_message trim
send_message_success_example =
    send_message_success zalo_env lively [] (some (codes "token")) (codes "u6") (codes "Hi") refl

authenticate_code-IsSound_example :
    IsSound (authenticate_code zalo_env lively [] (codes "c") (codes "v")).0
authenticate_code-IsSound_example =
    authenticate_code-IsSound zalo_env lively [] (codes "c") (codes "v")
