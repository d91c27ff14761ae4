-- ===== src/Workspaces/Sales/Complete.antt =====
-- Which documents are errors: no amount that is missing counts as nothing.
use amocrm_analytics.Base.{
  ℕ, ◌+◌, ◌≤◌, ◌<◌, ◌≡◌, ◌∙◌, refl, ap, Bool, true, false, ◌&&◌, Option, none, some, List, [], ◌∷◌,
  ltb, leb, ◌==◌, all, filter, length, arith, ◌↔◌, if◌then◌else◌, Bool-cases, Option-cases, inl,
  inr,
}
use amocrm_analytics.Workspaces.Sales.{
  Operation, Line, RawDocument, RivileDocument, Parsed, accepted, ignored, failed, is_classified,
  is_counted, Totals, sum_lines, document_of, parse_rivile_document,
}

abbrev pub counted_lines : List Line → List Line
counted_lines lines = filter (λ l. is_counted l.code l.line_type) lines

abbrev pub value_of : Option ℕ → ℕ
value_of none = 0
value_of (some n) = n

abbrev pub total : (Line → Option ℕ) → List Line → ℕ
total f [] = 0
total f (l ∷ ls) = value_of (f l) + total f ls

abbrev pub is_amount : Option ℕ → Bool
is_amount none = false
is_amount (some n) = true

-- Every line is classified, and every line that counts has both amounts.
abbrev pub is_complete : List Line → Bool
is_complete lines =
    all is_classified lines
    && all (λ l. is_amount l.revenue && is_amount l.cost) (counted_lines lines)

abbrev pub totals_of : List Line → Totals
totals_of lines = record {
  revenue = total (λ l. l.revenue) (counted_lines lines);
  cost = total (λ l. l.cost) (counted_lines lines);
  count = length (counted_lines lines);
}

sum_lines_complete :
    (lines : List Line) → is_complete lines ≡ true → sum_lines lines ≡ accepted (totals_of lines)
unfolding sum_lines
sum_lines_complete [] h = refl
sum_lines_complete (l ∷ lines) h = ground (arith, sum_lines_complete lines)

abbrev pub is_failed {ℓ} : {A : Type ℓ} → Parsed A → Bool
is_failed (failed e) = true
is_failed _ = false

sum_lines_incomplete :
    (lines : List Line) → is_complete lines ≡ false → is_failed (sum_lines lines) ≡ true
unfolding sum_lines
sum_lines_incomplete [] h = cc
sum_lines_incomplete (l ∷ lines) h = ground (arith, sum_lines_incomplete lines)

-- What a posted document has, for its lines to be added up.
pub record IsValid (from to_exclusive : ℕ) (raw : RawDocument) (operation : Operation) (date : ℕ)
    (lines : List Line) : Type 0 where
  pub posted : raw.is_posted ≡ true
  pub has_operation : raw.operation ≡ some operation
  pub has_date : raw.date ≡ some date
  pub has_lines : raw.lines ≡ some lines
  pub has_id : (raw.id == 0) ≡ false
  pub since : from ≤ date
  pub before : date < to_exclusive
  pub complete : is_complete lines ≡ true

module _ (from to_exclusive : ℕ) (raw : RawDocument) where
  pub parsed_valid :
      (operation : Operation) (date : ℕ) (lines : List Line)
      → IsValid from to_exclusive raw operation date lines
      → parse_rivile_document from to_exclusive raw ≡ (
          if length (counted_lines lines) == 0
          then ignored
          else accepted (document_of raw operation date (totals_of lines)))
  unfolding parse_rivile_document
  parsed_valid operation date lines v =
      let early : ltb date from ≡ false = ground arith in
      let late : leb to_exclusive date ≡ false = ground arith in
      rw
        (
          v.posted,
          v.has_operation,
          v.has_date,
          v.has_id,
          early,
          late,
          v.has_lines,
          sum_lines_complete lines v.complete,
        )
        refl

  -- A document is accepted or ignored only when it is posted and valid.
  pub IsValid-of_parsed :
      raw.is_posted ≡ true
      → is_failed (parse_rivile_document from to_exclusive raw) ≡ false
      → (operation : Operation) × ((date : ℕ) × ((lines : List Line) × IsValid from to_exclusive raw
              operation date lines))
  unfolding parse_rivile_document
  IsValid-of_parsed posted h = elim (Option-cases raw.operation) [
    | inl e ↦ absurd (contradiction (rw (posted, e) at h))
    | inr (operation, e) ↦ elim (Option-cases raw.date) [
      | inl e' ↦ absurd (contradiction (rw (posted, e, e') at h))
      | inr (date, e') ↦ elim (Option-cases raw.lines) [
        | inl e'' ↦ absurd (ground arith)
        | inr (lines, e'') ↦ elim (Bool-cases (is_complete lines)) [
          | inl complete ↦ (
            operation,
            (
              date,
              (
                lines,
                record {
                  posted = posted;
                  has_operation = e;
                  has_date = e';
                  has_lines = e'';
                  has_id = ground arith;
                  since = ground arith;
                  before = ground arith;
                  complete = complete;
                },
              ),
            ),
          )
          | inr incomplete ↦
              let wrong = sum_lines_incomplete lines incomplete in absurd (ground arith)
        ]
      ]
    ]
  ]
    where
      contradiction : true ≡ false → ⊥
      contradiction e = cc

  abbrev pub HasAll : Type 0
  HasAll =
      (operation : Operation) × ((date : ℕ) × ((lines : List Line) × IsValid from to_exclusive raw
            operation date lines))

  not_failed : HasAll → is_failed (parse_rivile_document from to_exclusive raw) ≡ false
  not_failed (operation, (date, (lines, v))) =
      ap is_failed (parsed_valid operation date lines v)
      ∙ neither (length (counted_lines lines) == 0)
          (document_of raw operation date (totals_of lines))
    where
      neither :
          (b : Bool) (d : RivileDocument) → is_failed (if b then ignored else accepted d) ≡ false
      neither true d = refl
      neither false d = refl

  -- A posted document is an error exactly if something of it is missing: the operation, the id, a date
  -- inside the window, the lines, the class of a line, or an amount of a line that counts. So nothing that
  -- is missing is dropped or counts as zero.
  pub parse_rivile_document-failed_iff :
      raw.is_posted ≡ true
      → (is_failed (parse_rivile_document from to_exclusive raw) ≡ true) ↔ (¬ HasAll)
  parse_rivile_document-failed_iff posted = (
    (λ failure all_there. differ failure (not_failed all_there)),
    λ missing. elim (Bool-cases (is_failed (parse_rivile_document from to_exclusive raw))) [
      | inl y ↦ y
      | inr n ↦ absurd (missing (IsValid-of_parsed posted n))
    ],
  )
    where
      differ : {b : Bool} → b ≡ true → b ≡ false → ⊥
      differ e f = cc
