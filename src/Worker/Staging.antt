-- ===== src/Worker/Staging.antt =====
-- A staged import accounts for its rows.
use tool_messager.Prelude.{
  Bool-cases, List, Option-cases, [], arith, find_first, inl, inr, length, length-append, ℕ, ◌+◌,
  ◌∷◌, ◌≡◌,
}
use tool_messager.Store.{Db, ImportRow, StagedContact}
use tool_messager.Worker.Staged.{
  RowOutcome, Tally, count_outcome, create_staged, is_key_taken, is_same_person, stage_contact,
  stage_row, stage_rows, staged_contact, update_row, was_failed, was_imported, was_skipped,
}

stage_contact-contacts :
    (now workspace row : ℕ) (i : StagedContact) (t : Tally) (db : Db)
    → let (o, db') = stage_contact now workspace row i db in
      length db'.contacts + t.imported ≡ length db.contacts + (count_outcome o t).imported
unfolding stage_contact create_staged update_row
stage_contact-contacts now workspace row i t db =
    elim (Option-cases (find_first (is_same_person workspace i) db.contacts)) [
      | inr (c, found) ↦ ground (arith, found)
      | inl new_one ↦ elim (Bool-cases (is_key_taken db workspace i)) [
        | inl taken ↦ ground (arith, new_one, taken)
        | inr free_key ↦ ground (
          arith,
          new_one,
          free_key,
          length-append db.contacts (staged_contact db.next_id workspace i ∷ []),
        )
      ]
    ]

stage_row-contacts :
    (now workspace : ℕ) (r : ImportRow) (t : Tally) (db : Db)
    → let (o, db') = stage_row now workspace r db in
      length db'.contacts + t.imported ≡ length db.contacts + (count_outcome o t).imported
unfolding stage_row update_row
stage_row-contacts now workspace r t db = elim (Option-cases r.normalized) [
  | inl gone ↦ ground (arith, gone)
  | inr (i, there) ↦ ground (arith, there, stage_contact-contacts now workspace r.id i t db)
]

outcome_total :
    (o : RowOutcome) (t : Tally)
    → let u = count_outcome o t in
      u.imported + u.failed_count + u.skipped_count
      ≡ t.imported + t.failed_count + t.skipped_count + 1
outcome_total was_imported t = ground arith
outcome_total was_skipped t = ground arith
outcome_total was_failed t = ground arith

-- A run over staged rows accounts for each of them as imported, failed or skipped, and adds exactly
-- as many contacts as it counts imported.
pub stage_rows-accounts :
    (now workspace : ℕ) (rs : List ImportRow) (t : Tally) (db : Db)
    → let (u, db') = stage_rows now workspace rs (t, db) in
      (u.imported + u.failed_count + u.skipped_count
        ≡ t.imported + t.failed_count + t.skipped_count + length rs)
      × (length db'.contacts + t.imported ≡ length db.contacts + u.imported)
unfolding stage_rows
stage_rows-accounts now workspace [] t db = (ground arith, ground arith)
stage_rows-accounts now workspace (r ∷ rs) t db =
    let (o, db') = stage_row now workspace r db in
    let (total, added) = stage_rows-accounts now workspace rs (count_outcome o t) db' in
    (
      ground (arith, total, outcome_total o t),
      ground (arith, added, stage_row-contacts now workspace r t db),
    )
