-- ===== src/Imports/Judged.antt =====
-- What an import's mapping (`applyMapping` of apps/api/src/contacts/import-engine.service.ts) marks as
-- valid: the rows in the table, read back after all rounds.
use tool_messager.Prelude.{
  ==_self, Bool, Bool-cases, List, [], any, ap, arith, err, false, find_first, if◌then◌else◌, inl,
  inr, none, ok, refl, some, suc, sym, true, update_where, ℕ, ◌++◌, ◌==◌, ◌∙◌, ◌∷◌, ◌≡◌, ◌≤◌,
}
use tool_messager.Store.{Db, ImportRow, is_valid_row}
use tool_messager.Imports.Mapping.{
  Counts, DedupeKey, Item, Verdict, count_verdict, has_dedupe, is_duplicate, is_invalid, is_valid,
  judge, judge_items, judged_row, keys_of,
}
use tool_messager.Imports.Normal.{Normalized}
use tool_messager.Worker.{update_row}

-- The row of the table is marked as valid.
unfoldable pub marked_valid : List ImportRow → ℕ → Bool
marked_valid rows id = elim (find_first (λ (r : ImportRow). r.id == id) rows) [
  | none ↦ false
  | some r ↦ is_valid_row r.status
]

abbrev pub keys_of_value : Normalized → List DedupeKey
keys_of_value (ok i) = keys_of i
keys_of_value (err e) = []

-- The keys of the items whose rows are marked as valid, those of later items first.
unfoldable pub valid_keys : List ImportRow → List Item → List DedupeKey
valid_keys rows [] = []
valid_keys rows (i ∷ is) =
    let rest = valid_keys rows is in
    rest ++ (if marked_valid rows i.row then keys_of_value i.value else [])

-- How often a row is among the items.
unfoldable pub times : (row : ℕ) → List Item → ℕ
times row [] = 0
times row (i ∷ is) = let rest = times row is in if i.row == row then suc rest else rest

abbrev pub is_stored : List ImportRow → ℕ → Bool
is_stored rows id = any (λ (r : ImportRow). r.id == id) rows

abbrev is_valid_verdict : Verdict → Bool
is_valid_verdict (is_valid i) = true
is_valid_verdict _ = false

abbrev judged : (row : ℕ) → Verdict → List ImportRow → List ImportRow
judged row v rows = update_where (λ (r : ImportRow). r.id == row) (judged_row v) rows

judged_row-id : (v : Verdict) (r : ImportRow) → (judged_row v r).id ≡ r.id
unfolding judged_row
judged_row-id (is_valid i) r = refl
judged_row-id (is_invalid e) r = refl
judged_row-id (is_duplicate i e) r = refl

judged_row-status :
    (v : Verdict) (r : ImportRow) → is_valid_row (judged_row v r).status ≡ is_valid_verdict v
unfolding judged_row
judged_row-status (is_valid i) r = refl
judged_row-status (is_invalid e) r = refl
judged_row-status (is_duplicate i e) r = refl

marked-other :
    (v : Verdict) (row id : ℕ) (rows : List ImportRow)
    → (row == id) ≡ false
    → marked_valid (judged row v rows) id ≡ marked_valid rows id
unfolding marked_valid update_where find_first
marked-other v row id [] h = refl
marked-other v row id (r ∷ rs) h = ground (arith, h, judged_row-id v r, marked-other v row id rs h)

marked-judged :
    (v : Verdict) (row : ℕ) (rows : List ImportRow)
    → is_stored rows row ≡ true
    → marked_valid (judged row v rows) row ≡ is_valid_verdict v
unfolding marked_valid update_where find_first
marked-judged v row [] h = absurd (cc)
marked-judged v row (r ∷ rs) h =
    ground (arith, h, judged_row-id v r, judged_row-status v r, marked-judged v row rs)

stored-judged :
    (v : Verdict) (row id : ℕ) (rows : List ImportRow)
    → is_stored (judged row v rows) id ≡ is_stored rows id
unfolding update_where
stored-judged v row id [] = refl
stored-judged v row id (r ∷ rs) = ground (arith, judged_row-id v r, stored-judged v row id rs)

pub judge_items-others :
    (existing : List DedupeKey) (is : List Item) (t : Counts) (db : Db) (id : ℕ)
    → times id is ≡ 0
    → marked_valid (judge_items existing is (t, db)).1.import_rows id
      ≡ marked_valid db.import_rows id
unfolding judge_items times update_row
judge_items-others existing [] t db id h = refl
judge_items-others existing (i ∷ is) t db id h =
    let v = judge existing t.seen i.value in
    judge_items-others existing is (count_verdict v t) (update_row i.row (judged_row v) db) id
      (ground (arith, h))
    ∙ marked-other v i.row id db.import_rows (ground (arith, h))

pub judge_items-stored :
    (existing : List DedupeKey) (is : List Item) (t : Counts) (db : Db) (id : ℕ)
    → is_stored (judge_items existing is (t, db)).1.import_rows id ≡ is_stored db.import_rows id
unfolding judge_items update_row
judge_items-stored existing [] t db id = refl
judge_items-stored existing (i ∷ is) t db id =
    let v = judge existing t.seen i.value in
    judge_items-stored existing is (count_verdict v t) (update_row i.row (judged_row v) db) id
    ∙ stored-judged v i.row id db.import_rows

verdict-seen :
    (existing : List DedupeKey) (v : Normalized) (t : Counts)
    → (count_verdict (judge existing t.seen v) t).seen
      ≡ (if is_valid_verdict (judge existing t.seen v) then keys_of_value v else []) ++ t.seen
unfolding judge count_verdict
verdict-seen existing (err e) t = refl
verdict-seen existing (ok i) t = elim (Bool-cases (any (has_dedupe existing) (keys_of i))) [
  | inl known ↦ rw known refl
  | inr new ↦ rw new (elim (Bool-cases (any (has_dedupe t.seen) (keys_of i))) [
    | inl again ↦ rw again refl
    | inr first ↦ rw first refl
  ])
]

-- Every item's row is in the table.
unfoldable pub AllStored : List Item → List ImportRow → Type 0
AllStored is rows = (id : ℕ) → 1 ≤ times id is → is_stored rows id ≡ true

-- No row is there twice.
unfoldable pub AllApart : List Item → Type 0
AllApart is = (id : ℕ) → times id is ≤ 1

pub append_nil : (xs : List DedupeKey) → xs ++ [] ≡ xs
append_nil [] = refl
append_nil (x ∷ xs) = ap (λ r. x ∷ r) (append_nil xs)

pub append_assoc : (xs ys zs : List DedupeKey) → (xs ++ ys) ++ zs ≡ xs ++ (ys ++ zs)
append_assoc [] ys zs = refl
append_assoc (x ∷ xs) ys zs = ap (λ r. x ∷ r) (append_assoc xs ys zs)

pub judge_items-seen :
    (existing : List DedupeKey) (is : List Item) (t : Counts) (db : Db)
    → AllApart is
    → AllStored is db.import_rows
    → (judge_items existing is (t, db)).0.seen
      ≡ valid_keys (judge_items existing is (t, db)).1.import_rows is ++ t.seen
unfolding judge_items valid_keys AllApart AllStored update_row times
judge_items-seen existing [] t db apart stored = refl
judge_items-seen existing (i ∷ is) t db apart stored =
    let v = judge existing t.seen i.value in
    let db' = update_row i.row (judged_row v) db in
    let rows = (judge_items existing is (count_verdict v t, db')).1.import_rows in
    let once : times i.row is ≡ 0 = ground (arith, apart i.row, ==_self i.row) in
    let rest =
      judge_items-seen existing is (count_verdict v t) db' (λ id. ground (arith, apart id))
        (λ id h. stored-judged v i.row id db.import_rows ∙ stored id (ground (arith, h))) in
    let marked : marked_valid rows i.row ≡ is_valid_verdict v =
      judge_items-others existing is (count_verdict v t) db' i.row once
      ∙ marked-judged v i.row db.import_rows (stored i.row (ground (arith, ==_self i.row))) in
    rest
    ∙ ap (λ ks. valid_keys rows is ++ ks) (verdict-seen existing i.value t)
    ∙ ap (λ b. valid_keys rows is ++ ((if b then keys_of_value i.value else []) ++ t.seen))
        (sym marked)
    ∙ sym (
        append_assoc (valid_keys rows is)
          (if marked_valid rows i.row then keys_of_value i.value else []) t.seen)
