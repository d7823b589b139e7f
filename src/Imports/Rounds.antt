-- ===== src/Imports/Rounds.antt =====
-- All rounds of an import's mapping (`applyMapping` of
-- apps/api/src/contacts/import-engine.service.ts), and the rows that they mark as valid.
use mathlib.Core.Path.{subst}
use tool_messager.Prelude.{
  ==_self, List, [], ap, arith, drop, if◌then◌else◌, length, refl, suc, sym, take, zero, ℕ, ◌*◌,
  ◌++◌, ◌+◌, ◌∙◌, ◌∷◌, ◌≡◌, ◌≤◌,
}
use tool_messager.Store.{Db, ImportRow}
use tool_messager.Imports.Mapping.{Counts, Item, existing_keys, judge_batches, judge_items}
use tool_messager.Imports.Distinct.{Distinct, judge_batches-Distinct, length-drop_le}
use tool_messager.Imports.Judged.{
  AllApart, AllStored, append_assoc, append_nil, judge_items-others, judge_items-seen,
  judge_items-stored, keys_of_value, marked_valid, times, valid_keys,
}

times-append : (id : ℕ) (xs ys : List Item) → times id (xs ++ ys) ≡ times id xs + times id ys
unfolding times
times-append id [] ys = omega arith
times-append id (x ∷ xs) ys = ground (arith, times-append id xs ys)

valid_keys-append :
    (rows : List ImportRow) (xs ys : List Item)
    → valid_keys rows (xs ++ ys) ≡ valid_keys rows ys ++ valid_keys rows xs
unfolding valid_keys
valid_keys-append rows [] ys = sym (append_nil (valid_keys rows ys))
valid_keys-append rows (x ∷ xs) ys =
    let own = if marked_valid rows x.row then keys_of_value x.value else [] in
    ap (λ ks. ks ++ own) (valid_keys-append rows xs ys)
    ∙ append_assoc (valid_keys rows ys) (valid_keys rows xs) own

-- Where two tables mark the items alike, they have the same keys of valid rows.
valid_keys-alike :
    (rows rows' : List ImportRow) (xs : List Item)
    → ((id : ℕ) → 1 ≤ times id xs → marked_valid rows id ≡ marked_valid rows' id)
    → valid_keys rows xs ≡ valid_keys rows' xs
unfolding valid_keys times
valid_keys-alike rows rows' [] h = refl
valid_keys-alike rows rows' (x ∷ xs) h = ground (
  arith,
  h x.row (ground (arith, ==_self x.row)),
  valid_keys-alike rows rows' xs (λ id k. h id (ground (arith, k))),
)

take-drop : (n : ℕ) (xs : List Item) → take n xs ++ drop n xs ≡ xs
take-drop zero xs = refl
take-drop (suc n) [] = refl
take-drop (suc n) (x ∷ xs) = ap (λ r. x ∷ r) (take-drop n xs)

times-take-drop :
    (id n : ℕ) (xs : List Item) → times id xs ≡ times id (take n xs) + times id (drop n xs)
times-take-drop id n xs =
    sym (ap (times id) (take-drop n xs)) ∙ times-append id (take n xs) (drop n xs)

judge_batches-others :
    (fuel workspace : ℕ) (is : List Item) (t : Counts) (db : Db) (id : ℕ)
    → times id is ≡ 0
    → marked_valid (judge_batches fuel workspace is (t, db)).1.import_rows id
      ≡ marked_valid db.import_rows id
unfolding judge_batches
judge_batches-others zero workspace is t db id h = refl
judge_batches-others (suc fuel) workspace is t db id h =
    let first = take 500 is in
    let existing = existing_keys db workspace first in
    let r = judge_items existing first (t, db) in
    let split = times-take-drop id 500 is in
    judge_batches-others fuel workspace (drop 500 is) r.0 r.1 id (omega (arith, split, h))
    ∙ judge_items-others existing first t db id (omega (arith, split, h))

-- The keys that the rounds have seen are those of the rows that the table then marks as valid.
judge_batches-seen :
    (fuel workspace : ℕ) (is : List Item) (t : Counts) (db : Db)
    → length is ≤ fuel * 500
    → AllApart is
    → AllStored is db.import_rows
    → (judge_batches fuel workspace is (t, db)).0.seen
      ≡ valid_keys (judge_batches fuel workspace is (t, db)).1.import_rows is ++ t.seen
unfolding judge_batches valid_keys AllApart AllStored
judge_batches-seen zero workspace [] t db h apart stored = refl
judge_batches-seen zero workspace (i ∷ is) t db h apart stored = absurd (ground (arith, h))
judge_batches-seen (suc fuel) workspace is t db h apart stored =
    let first = take 500 is in
    let later = drop 500 is in
    let existing = existing_keys db workspace first in
    let r = judge_items existing first (t, db) in
    let rows = (judge_batches fuel workspace later r).1.import_rows in
    let split = λ (id : ℕ). times-take-drop id 500 is in
    let rest =
      judge_batches-seen fuel workspace later r.0 r.1
        (length-drop_le 500 (fuel * 500) is (ground (arith, h)))
        (λ id. omega (arith, split id, apart id))
        (λ id k.
          judge_items-stored existing first t db id ∙ stored id (omega (arith, split id, k))) in
    let begun =
      judge_items-seen existing first t db (λ id. omega (arith, split id, apart id))
        (λ id k. stored id (omega (arith, split id, k))) in
    let alike : valid_keys r.1.import_rows first ≡ valid_keys rows first =
      valid_keys-alike r.1.import_rows rows first (λ id k. sym (
        judge_batches-others fuel workspace later r.0 r.1 id
          (omega (arith, split id, apart id, k)))) in
    rest
    ∙ ap (λ ks. valid_keys rows later ++ ks) (begun ∙ ap (λ ks. ks ++ t.seen) alike)
    ∙ sym (append_assoc (valid_keys rows later) (valid_keys rows first) t.seen)
    ∙ ap (λ ks. ks ++ t.seen)
        (sym (valid_keys-append rows first later) ∙ ap (valid_keys rows) (take-drop 500 is))

-- With fuel for all rows, the rounds of an import count every row once, as valid, invalid or duplicate,
-- and no Zalo id or phone number occurs twice among the rows that the table afterwards marks as valid,
-- nor with the keys seen before. The items are different rows of the table.
pub judge_batches_lem :
    (fuel workspace : ℕ) (items : List Item) (t : Counts) (db : Db)
    → length items ≤ fuel * 500
    → AllApart items
    → AllStored items db.import_rows
    → Distinct t.seen
    → let r = judge_batches fuel workspace items (t, db) in
      (r.0.valid_count + r.0.invalid_count + r.0.duplicate_count
        ≡ t.valid_count + t.invalid_count + t.duplicate_count + length items)
      × Distinct (valid_keys r.1.import_rows items ++ t.seen)
judge_batches_lem fuel workspace items t db enough apart stored before =
    let (total, distinct) = judge_batches-Distinct fuel workspace items t db enough before in
    (
      total,
      subst Distinct (judge_batches-seen fuel workspace items t db enough apart stored) distinct,
    )
