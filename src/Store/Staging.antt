-- ===== src/Store/Staging.antt =====
-- The rows of prisma/schema.prisma that are staged for later work: file imports, webhook events and
-- the states of an OAuth login.
use tool_messager.Prelude.{Bool, List, Option, Text, false, true, ℕ}
use tool_messager.Shared.{ConsentStatus, Platform}
use tool_messager.Store.Enums.{JobStatus}

pub data ImportStatus : Type 0 where
  uploaded mapping ready queued processing completed partial failed cancelled : ImportStatus

pub data RowStatus : Type 0 where
  row_pending row_valid row_invalid row_duplicate row_imported row_skipped row_failed : RowStatus

pub record ImportJob : Type 0 where
  pub id : ℕ
  pub workspace_id : ℕ
  pub uploaded_by : ℕ
  pub status : ImportStatus
  pub detected_columns : List Text
  pub valid_rows : ℕ
  pub invalid_rows : ℕ
  pub duplicate_rows : ℕ
  pub imported_rows : ℕ
  pub skipped_rows : ℕ
  pub failed_rows : ℕ
  pub progress : ℕ
  pub created_at : ℕ
  pub completed_at : Option ℕ

-- A row that the import engine has normalised.
pub record StagedContact : Type 0 where
  pub platform : Platform
  pub platform_user_id : Option Text
  pub display_name : Text
  pub username : Option Text
  pub phone : Option Text
  pub normalized_phone : Option Text
  pub email : Option Text
  pub gender : Option Text
  pub source : Text
  pub consent_status : ConsentStatus

-- The texts under `ImportRow.errors`.
pub data RowError : Type 0 where
  name_missing phone_invalid identity_missing email_invalid : RowError
  already_in_contacts repeated_in_file appeared_after_preview write_failed : RowError

pub record ImportRow : Type 0 where
  pub id : ℕ
  pub import_job_id : ℕ
  pub row_number : ℕ
  pub raw : List (Text × Text)
  pub normalized : Option StagedContact
  pub status : RowStatus
  pub row_error : Option RowError
  pub contact_id : Option ℕ

-- The fields of a Zalo event that the worker reads.
pub record ZaloWebhook : Type 0 where
  pub event_name : Option Text
  pub sender_id : Option Text
  pub sender_name : Option Text
  pub recipient_id : Option Text
  pub recipient_name : Option Text
  pub msg_id : Option Text
  pub msg_text : Option Text
  pub timestamp : Option ℕ

pub record WebhookEvent : Type 0 where
  pub id : ℕ
  pub workspace_id : ℕ
  pub event_type : Text
  pub payload : ZaloWebhook
  pub status : JobStatus
  pub attempts : ℕ
  pub last_attempt_at : Option ℕ
  pub created_at : ℕ

pub record OauthState : Type 0 where
  pub id : ℕ
  pub platform : Platform
  pub state_hash : Text
  pub encrypted_code_verifier : Text
  pub redirect_uri : Text
  pub workspace_id : ℕ
  pub user_id : ℕ
  pub expires_at : ℕ
  pub used_at : Option ℕ
  pub created_at : ℕ

-- `status in ['COMPLETED', 'PARTIAL', 'FAILED', 'CANCELLED']`
abbrev pub is_finished_import : ImportStatus → Bool
is_finished_import ImportStatus.completed = true
is_finished_import partial = true
is_finished_import ImportStatus.failed = true
is_finished_import ImportStatus.cancelled = true
is_finished_import _ = false

-- `['COMPLETED', 'PARTIAL'].includes(status)`
abbrev pub is_imported : ImportStatus → Bool
is_imported ImportStatus.completed = true
is_imported partial = true
is_imported _ = false

-- `status in ['QUEUED', 'PROCESSING']`
abbrev pub is_import_open : ImportStatus → Bool
is_import_open ImportStatus.queued = true
is_import_open processing = true
is_import_open _ = false

abbrev pub is_valid_row : RowStatus → Bool
is_valid_row row_valid = true
is_valid_row _ = false
