-- ===== src/Imports/Distinct.antt =====
-- The rows that an import finds valid name distinct people.
use mathlib.Core.Path.{sym, ◌∙◌}
use tool_messager.Prelude.{
  Bool-cases, List, Option, Text, [], any, any-append, arith, drop, err, false, inl, inr, is_empty,
  length, none, ok, some, suc, sym, take, zero, ||-false, ℕ, ◌*◌, ◌++◌, ◌+◌, ◌∙◌, ◌∷◌, ◌≡◌, ◌≤◌,
}
use tool_messager.Store.{Db, StagedContact}
use tool_messager.Imports.Mapping.{
  Counts, DedupeKey, Item, count_verdict, existing_keys, has_dedupe, judge, judge_batches,
  judge_items, judged_row, keys_of, optional_key, phone_key, zalo_key,
}
use tool_messager.Worker.{update_row}
use tool_messager.Imports.Normal.{Normalized}

length-take-drop : (n : ℕ) (xs : List Item) → length (take n xs) + length (drop n xs) ≡ length xs
length-take-drop zero xs = ground arith
length-take-drop (suc n) [] = ground arith
length-take-drop (suc n) (x ∷ xs) = ground (arith, length-take-drop n xs)

pub length-drop_le : (n m : ℕ) (xs : List Item) → length xs ≤ m + n → length (drop n xs) ≤ m
length-drop_le zero m xs h = ground (arith, h)
length-drop_le (suc n) m [] h = ground arith
length-drop_le (suc n) m (x ∷ xs) h = length-drop_le n m xs (ground (arith, h))

-- No key occurs twice.
pub Distinct : List DedupeKey → Type 0
Distinct [] = Unit {0}
Distinct (k ∷ ks) = (has_dedupe ks k ≡ false) × Distinct ks

pub Distinct-nil : Distinct []
unfolding Distinct
Distinct-nil = tt

phone-Distinct :
    (o : Option Text) (ks : List DedupeKey)
    → any (has_dedupe ks) (optional_key phone_key o) ≡ false
    → Distinct ks
    → Distinct (optional_key phone_key o ++ ks)
unfolding Distinct
phone-Distinct none ks h d = d
phone-Distinct (some t) ks h d = elim (Bool-cases (is_empty t)) [
  | inl e ↦ rw e d
  | inr e ↦ rw e (ground (arith, h, e), d)
]

not_a_phone :
    (o : Option Text) (ks : List DedupeKey) (t : Text)
    → has_dedupe ks (zalo_key t) ≡ false
    → has_dedupe (optional_key phone_key o ++ ks) (zalo_key t) ≡ false
not_a_phone none ks t h = h
not_a_phone (some s) ks t h = ground (arith, h)

zalo-Distinct :
    (o p : Option Text) (ks : List DedupeKey)
    → any (has_dedupe ks) (optional_key zalo_key o) ≡ false
    → Distinct (optional_key phone_key p ++ ks)
    → Distinct (optional_key zalo_key o ++ optional_key phone_key p ++ ks)
unfolding Distinct
zalo-Distinct none p ks h d = d
zalo-Distinct (some t) p ks h d = elim (Bool-cases (is_empty t)) [
  | inl e ↦ rw e d
  | inr e ↦ rw e (not_a_phone p ks t (ground (arith, h, e)), d)
]

keys_of-Distinct :
    (i : StagedContact) (ks : List DedupeKey)
    → any (has_dedupe ks) (keys_of i) ≡ false
    → Distinct ks
    → Distinct (keys_of i ++ ks)
keys_of-Distinct i ks h d =
    let split = ||-false _ _ (
      sym (
        any-append (has_dedupe ks) (optional_key zalo_key i.platform_user_id)
          (optional_key phone_key i.normalized_phone))
      ∙ h) in
    zalo-Distinct i.platform_user_id i.normalized_phone ks split.0
      (phone-Distinct i.normalized_phone ks split.1 d)

judge-Distinct :
    (existing : List DedupeKey) (v : Normalized) (t : Counts)
    → Distinct t.seen
    → Distinct (count_verdict (judge existing t.seen v) t).seen
unfolding judge count_verdict
judge-Distinct existing (err e) t d = d
judge-Distinct existing (ok i) t d = elim (Bool-cases (any (has_dedupe existing) (keys_of i))) [
  | inl known ↦ rw known d
  | inr unknown_there ↦ rw unknown_there (elim (Bool-cases (any (has_dedupe t.seen) (keys_of i))) [
    | inl again ↦ rw again d
    | inr first ↦ rw first (keys_of-Distinct i t.seen first d)
  ])
]

judge_items-Distinct :
    (existing : List DedupeKey) (is : List Item) (t : Counts) (db : Db)
    → Distinct t.seen
    → Distinct (judge_items existing is (t, db)).0.seen
unfolding judge_items
judge_items-Distinct existing [] t db d = d
judge_items-Distinct existing (i ∷ is) t db d =
    judge_items-Distinct existing is (count_verdict (judge existing t.seen i.value) t)
      (update_row i.row (judged_row (judge existing t.seen i.value)) db)
      (judge-Distinct existing i.value t d)

judge_items-total :
    (existing : List DedupeKey) (is : List Item) (t : Counts) (db : Db)
    → let r = (judge_items existing is (t, db)).0 in
      r.valid_count + r.invalid_count + r.duplicate_count
      ≡ t.valid_count + t.invalid_count + t.duplicate_count + length is
unfolding judge_items count_verdict
judge_items-total existing [] t db = ground arith
judge_items-total existing (i ∷ is) t db = ground (
  arith,
  judge_items-total existing is (count_verdict (judge existing t.seen i.value) t)
      (update_row i.row (judged_row (judge existing t.seen i.value)) db),
)

add_chain : (a b c d e f : ℕ) → a ≡ b + c → b ≡ d + e → e + c ≡ f → a ≡ d + f
add_chain a b c d e f h k l = omega arith

-- With fuel for all rows, the rounds of an import count every row once, as valid, invalid or
-- duplicate, and keep the keys that they have seen distinct.
pub judge_batches-Distinct :
    (fuel workspace : ℕ) (items : List Item) (t : Counts) (db : Db)
    → length items ≤ fuel * 500
    → Distinct t.seen
    → let r = (judge_batches fuel workspace items (t, db)).0 in
      (r.valid_count + r.invalid_count + r.duplicate_count
        ≡ t.valid_count + t.invalid_count + t.duplicate_count + length items)
      × Distinct r.seen
unfolding judge_batches
judge_batches-Distinct zero workspace items t db h d = (ground (arith, h), d)
judge_batches-Distinct (suc fuel) workspace items t db h d =
    let first = take 500 items in
    let existing = existing_keys db workspace first in
    let r = judge_items existing first (t, db) in
    let rest =
      judge_batches-Distinct fuel workspace (drop 500 items) r.0 r.1
        (length-drop_le 500 (fuel * 500) items (ground (arith, h)))
        (judge_items-Distinct existing first t db d) in
    (
      add_chain _ _ _ _ _ _ rest.0 (judge_items-total existing first t db)
          (length-take-drop 500 items),
      rest.1,
    )
