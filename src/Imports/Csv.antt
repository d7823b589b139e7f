-- ===== src/Imports/Csv.antt =====
-- `escapeCsv` against a reader of CSV fields (RFC 4180).
use mathlib.Core.Path.{sym, ◌∙◌}
use tool_messager.Prelude.{
  ==_iff, Bool-cases, Text, [], any, ap, arith, false, if◌then◌else◌, inl, inr, refl, sym, true, ℕ,
  ◌++◌, ◌==◌, ◌||◌, ◌∙◌, ◌∷◌, ◌≡◌,
}
use tool_messager.Imports.Normal.{double_quotes, escape_csv, is_special}

abbrev push : ℕ → Text × Text → Text × Text
push c (field, rest) = (c ∷ field, rest)

-- Inside quotes two quotes stand for one, and a single one ends the field.
unfoldable read_quoted : Text → Text × Text
read_quoted [] = ([], [])
read_quoted (c ∷ []) = if c == 34 then ([], []) else (c ∷ [], [])
read_quoted (c ∷ d ∷ s) =
    let r = read_quoted s in
    let q = read_quoted (d ∷ s) in
    if c == 34 then (if d == 34 then push 34 r else ([], d ∷ s)) else push c q

-- A comma or a line end ends a field that is not quoted.
unfoldable read_plain : Text → Text × Text
read_plain [] = ([], [])
read_plain (c ∷ s) =
    let r = read_plain s in if c == 44 || c == 13 || c == 10 then ([], c ∷ s) else push c r

-- The first field of a line, and what follows it.
pub read_field : Text → Text × Text
unfolding read_quoted read_plain
read_field [] = ([], [])
read_field (c ∷ s) = if c == 34 then read_quoted s else read_plain (c ∷ s)

quoted-nonempty :
    (s rest : Text) → (y : ℕ) × (ys : Text) × ((double_quotes s ++ 34 ∷ rest) ≡ y ∷ ys)
unfolding double_quotes
quoted-nonempty [] rest = (34, rest, refl)
quoted-nonempty (c ∷ s) rest = elim (Bool-cases (c == 34)) [
  | inl q ↦ (34, 34 ∷ double_quotes s ++ 34 ∷ rest, ground (arith, q))
  | inr q ↦ (c, double_quotes s ++ 34 ∷ rest, ground (arith, q))
]

read_other :
    (c y : ℕ) (ys : Text)
    → (c == 34) ≡ false
    → read_quoted (c ∷ y ∷ ys) ≡ push c (read_quoted (y ∷ ys))
unfolding read_quoted
read_other c y ys h = rw h refl

read_two : (s : Text) → read_quoted (34 ∷ 34 ∷ s) ≡ push 34 (read_quoted s)
unfolding read_quoted
read_two s = refl

double_other :
    (c : ℕ) (s rest : Text)
    → (c == 34) ≡ false
    → (double_quotes (c ∷ s) ++ rest) ≡ c ∷ (double_quotes s ++ rest)
unfolding double_quotes
double_other c s rest h = rw h refl

double_quote :
    (c : ℕ) (s rest : Text)
    → (c == 34) ≡ true
    → (double_quotes (c ∷ s) ++ rest) ≡ 34 ∷ 34 ∷ (double_quotes s ++ rest)
unfolding double_quotes
double_quote c s rest h = rw h refl

read_empty : (rest : Text) → read_quoted (double_quotes [] ++ 34 ∷ 44 ∷ rest) ≡ ([], 44 ∷ rest)
unfolding read_quoted double_quotes
read_empty rest = refl

read_quoted-double :
    (t rest : Text) → read_quoted (double_quotes t ++ 34 ∷ 44 ∷ rest) ≡ (t, 44 ∷ rest)
read_quoted-double [] rest = read_empty rest
read_quoted-double (c ∷ s) rest = elim (Bool-cases (c == 34)) [
  | inl q ↦
      ap read_quoted (double_quote c s (34 ∷ 44 ∷ rest) q)
      ∙ read_two (double_quotes s ++ 34 ∷ 44 ∷ rest)
      ∙ ap (push 34) (read_quoted-double s rest)
      ∙ ap (λ (x : ℕ). (x ∷ s, 44 ∷ rest)) (sym ((==_iff c 34).0 q))
  | inr q ↦
      let (y, ys, e) = quoted-nonempty s (44 ∷ rest) in
      ap read_quoted (double_other c s (34 ∷ 44 ∷ rest) q)
      ∙ ap (λ (x : Text). read_quoted (c ∷ x)) e
      ∙ read_other c y ys q
      ∙ ap (λ (x : Text). push c (read_quoted x)) (sym e)
      ∙ ap (push c) (read_quoted-double s rest)
]

snoc-append : (s rest : Text) → ((s ++ 34 ∷ []) ++ rest) ≡ (s ++ 34 ∷ rest)
snoc-append [] rest = refl
snoc-append (c ∷ s) rest = ap (λ (x : Text). c ∷ x) (snoc-append s rest)

read_plain-plain :
    (t rest : Text) → any is_special t ≡ false → read_plain (t ++ 44 ∷ rest) ≡ (t, 44 ∷ rest)
unfolding read_plain
read_plain-plain [] rest h = refl
read_plain-plain (c ∷ t) rest h = ground (arith, h, read_plain-plain t rest)

read_field-plain :
    (t rest : Text) → any is_special t ≡ false → read_field (t ++ 44 ∷ rest) ≡ (t, 44 ∷ rest)
unfolding read_field
read_field-plain [] rest h = read_plain-plain [] rest refl
read_field-plain (c ∷ t) rest h = ground (arith, h, read_plain-plain (c ∷ t) rest h)

-- A text that is escaped and followed by a comma is read back as the field it was, with the comma
-- and all that follows left over.
pub read_field-escape_csv :
    (t rest : Text) → read_field (escape_csv t ++ 44 ∷ rest) ≡ (t, 44 ∷ rest)
unfolding read_field escape_csv
read_field-escape_csv t rest = elim (Bool-cases (any is_special t)) [
  | inl special ↦
      rw special
        (ap read_quoted (snoc-append (double_quotes t) (44 ∷ rest)) ∙ read_quoted-double t rest)
  | inr plain ↦ rw plain (read_field-plain t rest plain)
]
