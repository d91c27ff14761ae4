-- ===== src/Workspaces/Sales.antt =====
-- What a document of the accounting system counts as (apps/api/src/workspaces/rivile-sales.ts). A document
-- is given with its fields read: a date is its day, or `none` if the text is no date; an amount is its
-- absolute value in units of a millionth (`none` for a text that is no amount), so at most six decimals;
-- an empty text is 0.
pub mod Complete
pub mod Sums
mod Tests
use amocrm_analytics.Base.{
  ℕ, suc, ◌+◌, ◌-◌, ◌*◌, ◌/◌, Bool, true, false, ◌&&◌, ◌||◌, not, Option, none, some, List, [], ◌∷◌,
  ltb, leb, ◌==◌, if◌then◌else◌,
}

pub data Operation : Type 0 where
  sale return : Operation

-- The code of a line: empty, that of the delivery (9990006), another that begins with 999, or any other.
pub data Code : Type 0 where
  no_code delivery service_code goods_code : Code

-- The type of a line: empty, '2', or any other.
pub data LineType : Type 0 where
  no_type service_type goods_type : LineType

pub record Line : Type 0 where
  pub code : Code
  pub line_type : LineType
  pub revenue : Option ℕ
  pub cost : Option ℕ

pub record RawDocument : Type 0 where
  pub is_posted : Bool
  pub operation : Option Operation
  pub id : ℕ
  pub date : Option ℕ
  pub number : ℕ
  pub manager_code : ℕ
  pub lines : Option (List Line)

-- An amount in cents.
pub record Amount : Type 0 where
  pub is_negative : Bool
  pub cents : ℕ

pub record RivileDocument : Type 0 where
  pub id : ℕ
  pub number : ℕ
  pub date : ℕ
  pub manager_code : ℕ
  pub revenue : Amount
  pub cost : Amount
  pub margin : Amount
  pub operation : Operation

pub data DocumentError : Type 0 where
  invalid_operation invalid_id_or_date missing_lines : DocumentError
  missing_classification invalid_financial_value : DocumentError

pub data Parsed {ℓ} (A : Type ℓ) : Type ℓ where
  accepted : A → Parsed A
  ignored : Parsed A
  failed : DocumentError → Parsed A

abbrev pub is_classified : Line → Bool
is_classified line = has_code line.code && has_type line.line_type
  where
    has_code : Code → Bool
    has_code no_code = false
    has_code _ = true

    has_type : LineType → Bool
    has_type no_type = false
    has_type _ = true

-- Services are left out, the delivery is not.
abbrev pub is_counted : Code → LineType → Bool
is_counted delivery t = true
is_counted service_code t = false
is_counted c service_type = false
is_counted c t = true

pub record Totals : Type 0 where
  pub revenue : ℕ
  pub cost : ℕ
  pub count : ℕ

abbrev add_line : Option ℕ → Option ℕ → Parsed Totals → Parsed Totals
add_line (some revenue) (some cost) (accepted t) =
    accepted (record { revenue = revenue + t.revenue; cost = cost + t.cost; count = suc t.count })
add_line (some revenue) (some cost) rest = rest
add_line _ _ rest = failed invalid_financial_value

-- The loop over the lines.
unfoldable pub sum_lines : List Line → Parsed Totals
sum_lines [] = accepted (record { revenue = 0; cost = 0; count = 0 })
sum_lines (line ∷ lines) =
    let rest = sum_lines lines in
    if not (is_classified line)
    then failed missing_classification
    else if not (is_counted line.code line.line_type)
    then rest
    else add_line line.revenue line.cost rest

-- `toDecimalPlaces(2)`: half a cent is rounded away from zero.
abbrev pub to_cents : ℕ → ℕ
to_cents n = (n + 5_000) / 10_000

abbrev pub is_return : Operation → Bool
is_return sale = false
is_return return = true

abbrev pub margin_of : (returned : Bool) (revenue cost : ℕ) → Amount
margin_of returned revenue cost =
    if leb cost revenue
    then record { is_negative = returned; cents = to_cents (revenue - cost) }
    else record { is_negative = not returned; cents = to_cents (cost - revenue) }

abbrev pub document_of : RawDocument → Operation → (date : ℕ) → Totals → RivileDocument
document_of raw operation date t = record {
  id = raw.id;
  number = if raw.number == 0 then raw.id else raw.number;
  date = date;
  manager_code = raw.manager_code;
  revenue = record { is_negative = is_return operation; cents = to_cents t.revenue };
  cost = record { is_negative = is_return operation; cents = to_cents t.cost };
  margin = margin_of (is_return operation) t.revenue t.cost;
  operation = operation;
}

abbrev with_totals : RawDocument → Operation → (date : ℕ) → Parsed Totals → Parsed RivileDocument
with_totals raw operation date (failed e) = failed e
with_totals raw operation date ignored = ignored
with_totals raw operation date (accepted t) =
    if t.count == 0 then ignored else accepted (document_of raw operation date t)

abbrev with_lines :
    RawDocument → Operation → (date : ℕ) → Option (List Line) → Parsed RivileDocument
with_lines raw operation date none = failed missing_lines
with_lines raw operation date (some lines) = with_totals raw operation date (sum_lines lines)

abbrev with_date :
    (from to_exclusive : ℕ) → RawDocument → Operation → (date : Option ℕ) → Parsed RivileDocument
with_date from to_exclusive raw operation none = failed invalid_id_or_date
with_date from to_exclusive raw operation (some date) =
    if raw.id == 0 || (ltb date from || leb to_exclusive date)
    then failed invalid_id_or_date
    else with_lines raw operation date raw.lines

abbrev with_operation :
    (from to_exclusive : ℕ) → RawDocument → Option Operation → Parsed RivileDocument
with_operation from to_exclusive raw none = failed invalid_operation
with_operation from to_exclusive raw (some operation) =
    with_date from to_exclusive raw operation raw.date

unfoldable pub parse_rivile_document : (from to_exclusive : ℕ) → RawDocument → Parsed RivileDocument
parse_rivile_document from to_exclusive raw =
    if not raw.is_posted then ignored else with_operation from to_exclusive raw raw.operation
