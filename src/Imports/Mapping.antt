-- ===== src/Imports/Mapping.antt =====
-- apps/api/src/contacts/import-engine.service.ts: `applyMapping`. Its reports on the way, after each
-- 500 rows, are overwritten by the last one and left out.
use tool_messager.Prelude.{
  Bool, List, Option, Text, [], any, drop, err, false, if◌then◌else◌, is_empty, length, none, ok,
  select_where, some, suc, take, text_eq, zero, ℕ, ◌&&◌, ◌++◌, ◌+◌, ◌==◌, ◌||◌, ◌∷◌,
}
use tool_messager.Shared.{same_platform, zalo}
use tool_messager.Store.{
  Contact, Db, ImportJob, ImportRow, RowError, StagedContact, already_in_contacts, is_none, mapping,
  ready, repeated_in_file, row_duplicate, row_invalid, row_valid,
}
use tool_messager.Worker.{update_import, update_row}
use tool_messager.Imports.Normal.{Mapped, Normalized, normalize_row}

-- `zalo:<id>` and `phone:<phone>`
pub data DedupeKey : Type 0 where
  zalo_key phone_key : Text → DedupeKey

abbrev pub same_dedupe_key : DedupeKey → DedupeKey → Bool
same_dedupe_key (zalo_key s) (zalo_key t) = text_eq s t
same_dedupe_key (phone_key s) (phone_key t) = text_eq s t
same_dedupe_key _ _ = false

abbrev pub has_dedupe : List DedupeKey → DedupeKey → Bool
has_dedupe ks k = any (same_dedupe_key k) ks

abbrev pub optional_key : (Text → DedupeKey) → Option Text → List DedupeKey
optional_key make none = []
optional_key make (some t) = if is_empty t then [] else make t ∷ []

abbrev pub keys_of : StagedContact → List DedupeKey
keys_of i = optional_key zalo_key i.platform_user_id ++ optional_key phone_key i.normalized_phone

abbrev keys_of_contact : Contact → List DedupeKey
keys_of_contact c =
    optional_key phone_key c.normalized_phone ++ optional_key zalo_key c.platform_user_id

abbrev keys_of_normalized : Normalized → List DedupeKey
keys_of_normalized (ok i) = keys_of i
keys_of_normalized (err e) = []

pub record Item : Type 0 where
  pub row : ℕ
  pub value : Normalized

items_of : (decompose : Text → Text) → (job : ℕ) → Mapped → List ImportRow → List Item
items_of decompose job m [] = []
items_of decompose job m (r ∷ rs) =
    record { row = r.id; value = normalize_row decompose job m r.raw } ∷ items_of decompose job m rs

batch_keys : List Item → List DedupeKey
batch_keys [] = []
batch_keys (i ∷ is) = keys_of_normalized i.value ++ batch_keys is

-- A live contact of the workspace with a phone, or a Zalo id, of the batch.
abbrev is_wanted : (workspace : ℕ) → List DedupeKey → Contact → Bool
is_wanted workspace ks c =
    c.workspace_id == workspace
    && is_none c.deleted_at
    && (any (has_dedupe ks) (optional_key phone_key c.normalized_phone)
        || (same_platform c.platform zalo
            && any (has_dedupe ks) (optional_key zalo_key c.platform_user_id)))

contact_keys : List Contact → List DedupeKey
contact_keys [] = []
contact_keys (c ∷ cs) = keys_of_contact c ++ contact_keys cs

unfoldable pub existing_keys : Db → (workspace : ℕ) → List Item → List DedupeKey
unfolding contact_keys batch_keys
existing_keys db workspace items =
    contact_keys (select_where (is_wanted workspace (batch_keys items)) db.contacts)

pub record Counts : Type 0 where
  pub seen : List DedupeKey
  pub valid_count : ℕ
  pub invalid_count : ℕ
  pub duplicate_count : ℕ

pub data Verdict : Type 0 where
  is_valid : StagedContact → Verdict
  is_invalid : RowError → Verdict
  is_duplicate : StagedContact → RowError → Verdict

unfoldable pub judge : (existing seen : List DedupeKey) → Normalized → Verdict
judge existing seen (err e) = is_invalid e
judge existing seen (ok i) =
    if any (has_dedupe existing) (keys_of i)
    then is_duplicate i already_in_contacts
    else (if any (has_dedupe seen) (keys_of i) then is_duplicate i repeated_in_file else is_valid i)

unfoldable pub count_verdict : Verdict → Counts → Counts
count_verdict (is_valid i) t = record t {
  seen = keys_of i ++ t.seen;
  valid_count = t.valid_count + 1;
}
count_verdict (is_invalid e) t = record t { invalid_count = t.invalid_count + 1 }
count_verdict (is_duplicate i e) t = record t { duplicate_count = t.duplicate_count + 1 }

unfoldable pub judged_row : Verdict → ImportRow → ImportRow
judged_row (is_valid i) r = record r { status = row_valid; normalized = some i; row_error = none }
judged_row (is_invalid e) r = record r {
  status = row_invalid;
  normalized = none;
  row_error = some e;
}
judged_row (is_duplicate i e) r = record r {
  status = row_duplicate;
  normalized = some i;
  row_error = some e;
}

unfoldable pub judge_items : (existing : List DedupeKey) → List Item → Counts × Db → Counts × Db
judge_items existing [] (t, db) = (t, db)
judge_items existing (i ∷ is) (t, db) =
    let v = judge existing t.seen i.value in
    judge_items existing is (count_verdict v t, update_row i.row (judged_row v) db)

-- Rounds of 500 rows; the fuel is the number of rows.
unfoldable pub judge_batches : ℕ → (workspace : ℕ) → List Item → Counts × Db → Counts × Db
judge_batches zero workspace items (t, db) = (t, db)
judge_batches (suc fuel) workspace items (t, db) =
    judge_batches fuel workspace (drop 500 items)
      (judge_items (existing_keys db workspace (take 500 items)) (take 500 items) (t, db))

abbrev no_counts : Counts
no_counts = record { seen = []; valid_count = 0; invalid_count = 0; duplicate_count = 0 }

abbrev start_mapping : ImportJob → ImportJob
start_mapping i = record i {
  status = mapping;
  progress = 0;
  valid_rows = 0;
  invalid_rows = 0;
  duplicate_rows = 0;
}

abbrev end_mapping : Counts → ImportJob → ImportJob
end_mapping t i = record i {
  status = ready;
  valid_rows = t.valid_count;
  invalid_rows = t.invalid_count;
  duplicate_rows = t.duplicate_count;
  skipped_rows = t.invalid_count + t.duplicate_count;
  progress = 100;
}

abbrev finish_mapping : (id : ℕ) → Counts × Db → Db
finish_mapping id (t, db) = update_import id (end_mapping t) db

abbrev pub rows_of : Db → (id : ℕ) → List ImportRow
rows_of db id = select_where (λ r. r.import_job_id == id) db.import_rows

unfoldable pub apply_mapping : (decompose : Text → Text) → (workspace id : ℕ) → Mapped → Db → Db
unfolding items_of
apply_mapping decompose workspace id m db =
    let items = items_of decompose id m (rows_of db id) in
    finish_mapping id
      (judge_batches (length items) workspace items (no_counts, update_import id start_mapping db))
