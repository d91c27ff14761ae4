-- ===== src/Workspaces/Sales/Sums.antt =====
-- What an accepted document says.
use mathlib.Core.Path.{subst}
use amocrm_analytics.Base.{
  ℕ, ◌+◌, ◌≤◌, ◌<◌, ◌≡◌, ◌∙◌, refl, sym, ap, Bool, true, false, not, some, List, leb, ◌==◌, length,
  arith, if◌then◌else◌, Bool-cases, inl, inr,
}
use amocrm_analytics.Workspaces.Sales.{
  Operation, Line, RawDocument, Amount, RivileDocument, accepted, ignored, to_cents, is_return,
  margin_of, document_of, parse_rivile_document,
}
use amocrm_analytics.Workspaces.Sales.Complete.{
  counted_lines, total, is_failed, totals_of, parsed_valid, IsValid-of_parsed,
}

abbrev same_sign : Bool → Bool → Bool
same_sign true b = b
same_sign false b = not b

-- The third amount is the first less the second, up to one cent; each has its sign.
abbrev pub IsDifference : Amount → Amount → Amount → Type 0
IsDifference revenue cost margin =
    if same_sign margin.is_negative revenue.is_negative
    then (margin.cents + cost.cents ≤ revenue.cents + 1)
      × (revenue.cents ≤ margin.cents + cost.cents + 1)
    else (margin.cents + revenue.cents ≤ cost.cents + 1)
      × (cost.cents ≤ margin.cents + revenue.cents + 1)

margin_of-IsDifference :
    (returned : Bool) (revenue cost : ℕ)
    → IsDifference
        (record { is_negative = returned; cents = to_cents revenue })
        (record { is_negative = returned; cents = to_cents cost })
        (margin_of returned revenue cost)
margin_of-IsDifference returned revenue cost = elim (Bool-cases (leb cost revenue)) [
  | inl y ↦
      let less : cost ≤ revenue = ground arith in
      rw y (signs returned _ _ (omega arith, omega arith))
  | inr n ↦
      let less : revenue < cost = ground arith in
      rw n (other_signs returned _ _ (omega arith, omega arith))
]
  where
    signs : (b : Bool) (A B : Type 0) → A → (if same_sign b b then A else B)
    signs true A B x = x
    signs false A B x = x

    other_signs : (b : Bool) (A B : Type 0) → B → (if same_sign (not b) b then A else B)
    other_signs true A B x = x
    other_signs false A B x = x

accepted_of :
    (b : Bool) (x d : RivileDocument)
    → (if b then ignored else accepted x) ≡ accepted d
    → (b ≡ false) × (d ≡ x)
accepted_of true x d e = cc
accepted_of false x d e = (refl, cc)

-- The document counts something, and its amounts are the totals, in cents and with the sign.
abbrev pub IsAccounted : List Line → RivileDocument → Type 0
IsAccounted lines d =
    (0 < length (counted_lines lines))
    × ((d.revenue ≡ record {
      is_negative = is_return d.operation;
      cents = to_cents (total (λ l. l.revenue) (counted_lines lines));
    })
        × ((d.cost ≡ record {
          is_negative = is_return d.operation;
          cents = to_cents (total (λ l. l.cost) (counted_lines lines));
        })
            × IsDifference d.revenue d.cost d.margin))

document_of-IsAccounted :
    (raw : RawDocument) (operation : Operation) (date : ℕ) (lines : List Line)
    → 0 < length (counted_lines lines)
    → IsAccounted lines (document_of raw operation date (totals_of lines))
document_of-IsAccounted raw operation date lines some_counted =
    let t = totals_of lines in
    (some_counted, (refl, (refl, margin_of-IsDifference (is_return operation) t.revenue t.cost)))

-- Every accepted document counts something, and its amounts are, in cents, the totals of the lines that
-- count, with the sign of its operation; the margin is the revenue less the cost up to one cent.
pub parse_rivile_document-IsAccounted :
    (from to_exclusive : ℕ) (raw : RawDocument) (d : RivileDocument)
    → raw.is_posted ≡ true
    → parse_rivile_document from to_exclusive raw ≡ accepted d
    → (lines : List Line) × ((raw.lines ≡ some lines) × IsAccounted lines d)
parse_rivile_document-IsAccounted from to_exclusive raw d posted e =
    let (operation, (date, (lines, v))) =
      IsValid-of_parsed from to_exclusive raw posted (ap is_failed e) in
    let (some_counted, same) =
      accepted_of (length (counted_lines lines) == 0)
        (document_of raw operation date (totals_of lines)) d
        (sym (parsed_valid from to_exclusive raw operation date lines v) ∙ e) in
    (
      lines,
      (
        v.has_lines,
        subst (IsAccounted lines) (sym same)
            (document_of-IsAccounted raw operation date lines (ground arith)),
      ),
    )
