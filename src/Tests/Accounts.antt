-- ===== src/Tests/Accounts.antt =====
-- Sessions and imports at concrete inputs.
use tool_messager.Imports.Rounds.{judge_batches_lem}
use tool_messager.Imports.Judged.{AllApart, AllStored, times, valid_keys}
use tool_messager.Prelude.{
  List, [], arith, codes, err, find_first, length, none, ok, refl, some, text_eq, true, ℕ, ◌++◌,
  ◌+◌, ◌∷◌, ◌≡◌,
}
use tool_messager.Shared.{unknown, zalo}
use tool_messager.Store.{Db, ImportRow, StagedContact, row_valid}
use tool_messager.Sessions.{TokenPair, refresh, reuse_revoked}
use tool_messager.Sessions.Family.{IsRevokedFamily, reuse-IsRevokedFamily}
use tool_messager.Imports.{Counts, Item, judge_batches}
use tool_messager.Imports.Distinct.{Distinct, Distinct-nil}
use tool_messager.Worker.{Tally, stage_rows}
use tool_messager.Worker.Staging.{stage_rows-accounts}
use tool_messager.Tests.Samples.{quiet_db}
use tool_messager.Tests.Situations.{auth_env, revoked_row_sample, used_db}

abbrev pair : TokenPair
pair = record { refresh_token = codes "next"; expires_in_seconds = 900 }

reuse-IsRevokedFamily_example :
    ((refresh auth_env 20 (codes "t") used_db).0 ≡ err reuse_revoked)
    × IsRevokedFamily 2 (codes "f") (refresh auth_env 20 (codes "t") used_db).1
unfolding find_first text_eq
reuse-IsRevokedFamily_example =
    reuse-IsRevokedFamily auth_env 20 (codes "t") used_db
      {p = record { sub = 2; is_refresh = true }} {t = revoked_row_sample} refl refl refl refl

abbrev staged : StagedContact
staged = record {
  platform = zalo;
  platform_user_id = some (codes "u7");
  display_name = codes "Chi";
  username = none;
  phone = none;
  normalized_phone = none;
  email = none;
  gender = none;
  source = codes "IMPORT:3";
  consent_status = unknown;
}

abbrev item : Item
item = record { row = 50; value = ok staged }

abbrev nothing_seen : Counts
nothing_seen = record { seen = []; valid_count = 0; invalid_count = 0; duplicate_count = 0 }

abbrev staged_row_of : (id : ℕ) → ImportRow
staged_row_of id = record {
  id = id;
  import_job_id = 3;
  row_number = id;
  raw = [];
  normalized = some staged;
  status = row_valid;
  row_error = none;
  contact_id = none;
}

abbrev mapped_db : Db
mapped_db = record quiet_db { import_rows = staged_row_of 50 ∷ staged_row_of 51 ∷ [] }

abbrev two_items : List Item
two_items = item ∷ record { row = 51; value = ok staged } ∷ []

two_items-AllApart : AllApart two_items
unfolding AllApart times
two_items-AllApart id = ground arith

two_items-AllStored : AllStored two_items mapped_db.import_rows
unfolding AllStored times
two_items-AllStored id h = ground (arith, h)

judge_batches_lem_example :
    let r = judge_batches 2 1 two_items (nothing_seen, mapped_db) in
    (r.0.valid_count + r.0.invalid_count + r.0.duplicate_count ≡ 0 + 0 + 0 + 2)
    × Distinct (valid_keys r.1.import_rows two_items ++ [])
judge_batches_lem_example =
    judge_batches_lem 2 1 two_items nothing_seen mapped_db (ground arith) two_items-AllApart
      two_items-AllStored Distinct-nil

abbrev nothing_staged : Tally
nothing_staged = record { imported = 0; failed_count = 0; skipped_count = 0 }

stage_rows-accounts_example :
    let (u, db') =
      stage_rows 20 1 (staged_row_of 50 ∷ staged_row_of 51 ∷ []) (nothing_staged, quiet_db) in
    (u.imported + u.failed_count + u.skipped_count ≡ 0 + 0 + 0 + 2)
    × (length db'.contacts + 0 ≡ length quiet_db.contacts + u.imported)
stage_rows-accounts_example =
    stage_rows-accounts 20 1 (staged_row_of 50 ∷ staged_row_of 51 ∷ []) nothing_staged quiet_db
