-- ===== src/Zalo/Sending.antt =====
-- What ZaloAdapter.sendMessage (packages/platform-zalo/src/index.ts) sends, and when.
use tool_messager.Prelude.{
  List, Option, Option-cases, Text, [], arith, false, if◌then◌else◌, inl, inr, is_empty, is_some,
  leb, length, length-append, none, not, refl, some, trim, true, ℕ, ◌&&◌, ◌++◌, ◌+◌, ◌∷◌, ◌≡◌, ◌≢◌,
  ◌≤◌,
}
use tool_messager.Zalo.{
  Reply, Request, Scalar, ZaloApi, ZaloEnv, ZaloEnvelope, ZaloMessageResponse, empty_envelope,
  is_truthy, json, network_error, non_empty, number, post_advisory, replied, string_of, text,
  zalo_adapter,
}
use tool_messager.Zalo.Calls.{message_id_of, read_message_id, send_message, sent_id}
use tool_messager.Platform.{success}

-- An id that is neither the empty text nor the number 0.
pub IsGiven : Scalar → Type 0
IsGiven id = (id ≢ text []) × (id ≢ number 0)

truthy-IsGiven : (id : Scalar) → is_truthy (some id) ≡ true → IsGiven id
unfolding IsGiven
truthy-IsGiven (text t) h = (λ e. ground (arith, h, e), λ e. ground (arith, e))
truthy-IsGiven (number n) h = (λ e. ground (arith, e), λ e. ground (arith, h, e))

message_id_of-IsGiven :
    (status : ℕ) (p : ZaloEnvelope ZaloMessageResponse)
    → (message_id_of status p).status ≡ success
    → (id : Scalar) × (sent_id p.content ≡ some id)
      × ((message_id_of status p).payload ≡ some (string_of id))
      × IsGiven id
unfolding message_id_of
message_id_of-IsGiven status p h = elim (Option-cases (sent_id p.content)) [
  | inl missing ↦ absurd (ground (arith, h, missing))
  | inr (id, there) ↦
      (id, there, ground (arith, h, there), truthy-IsGiven id (ground (arith, h, there)))
]

read_message_id-IsGiven :
    (r : Reply (ZaloEnvelope ZaloMessageResponse))
    → (read_message_id r).status ≡ success
    → (id : Scalar) × ((read_message_id r).payload ≡ some (string_of id)) × IsGiven id
unfolding read_message_id
read_message_id-IsGiven network_error h = absurd (ground (arith, h))
read_message_id-IsGiven (replied status body) h =
    let g = message_id_of-IsGiven status (json empty_envelope body) h in (g.0, g.2, g.3)

module _ (env : ZaloEnv) (api : ZaloApi) (log : List Request) where
  send_message-IsGiven :
      (t recipient content : Text)
      → (send_message env api log (some t) recipient content).0.status ≡ success
      → (id : Scalar) × ((send_message env api log (some t) recipient content).0.payload
          ≡ some (string_of id))
        × IsGiven id
  unfolding send_message
  send_message-IsGiven t recipient content h =
      let g =
        read_message_id-IsGiven (api.advisory (post_advisory t recipient (trim content)))
          (ground (arith, h)) in
      (g.0, ground (arith, h, g.1), g.2)

  -- A send that succeeds had an adapter that is configured, an access token, a recipient that is not
  -- blank and a text that, trimmed, has 1 to 2,000 units; it made one request, for that recipient
  -- with the trimmed text, and it reports the id of the message that Zalo gave, which is neither the
  -- empty text nor 0.
  pub send_message_success :
      (token : Option Text) (recipient content : Text)
      → (send_message env api log token recipient content).0.status ≡ success
      → ((zalo_adapter env).is_configured ≡ true)
        × (is_empty (trim recipient) ≡ false)
        × (is_empty (trim content) ≡ false)
        × (length (trim content) ≤ 2000)
        × ((t : Text) × (token ≡ some t)
            × (is_empty t ≡ false)
            × ((send_message env api log token recipient content).1
                ≡ log ++ post_advisory t recipient (trim content) ∷ []))
        × ((id : Scalar) × ((send_message env api log token recipient content).0.payload
              ≡ some (string_of id))
            × IsGiven id)
  unfolding send_message
  send_message_success none recipient content h = ground arith
  send_message_success (some t) recipient content h = (
    ground arith,
    ground arith,
    ground arith,
    ground arith,
    (t, refl, ground arith, ground arith),
    send_message-IsGiven t recipient content h,
  )

  -- Whatever is sent, at most one request is made, and none without a configured adapter, an access
  -- token, a recipient and a text of at most 2,000 units.
  pub send_message_requests :
      (token : Option Text) (recipient content : Text)
      → length (send_message env api log token recipient content).1
        ≡ length log
          + (if (zalo_adapter env).is_configured
                && is_some (non_empty token)
                && not (is_empty (trim recipient))
                && not (is_empty (trim content))
                && leb (length (trim content)) 2000
              then 1
              else 0)
  unfolding send_message
  send_message_requests none recipient content = ground arith
  send_message_requests (some t) recipient content =
      ground (arith, length-append log (post_advisory t recipient (trim content) ∷ []))
