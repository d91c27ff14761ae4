-- ===== src/Workspaces/Sales/Tests.antt =====
-- The documents of apps/api/src/workspaces/rivile-sales.spec.ts.
use amocrm_analytics.Base.{◌≡◌, refl, true, false, none, some, List, [], ◌∷◌, ◌↔◌}
use amocrm_analytics.Workspaces.Sales.{
  sale, return, goods_code, service_code, delivery, goods_type, service_type, Line, RawDocument,
  RivileDocument, accepted, ignored, failed, invalid_financial_value, invalid_id_or_date, sum_lines,
  parse_rivile_document,
}
use amocrm_analytics.Workspaces.Sales.Complete.{is_failed, HasAll, parse_rivile_document-failed_iff}
use amocrm_analytics.Workspaces.Sales.Sums.{IsAccounted, parse_rivile_document-IsAccounted}

abbrev line : Line
line = record {
  code = goods_code;
  line_type = goods_type;
  revenue = some 1_000_000_000;
  cost = some 700_000_000;
}

abbrev raw : RawDocument
raw = record {
  is_posted = true;
  operation = some sale;
  id = 1;
  date = some 20;
  number = 2;
  manager_code = 105;
  lines = some (line ∷ []);
}

abbrev document : RivileDocument
document = record {
  id = 1;
  number = 2;
  date = 20;
  manager_code = 105;
  revenue = record { is_negative = false; cents = 100_000 };
  cost = record { is_negative = false; cents = 70_000 };
  margin = record { is_negative = false; cents = 30_000 };
  operation = sale;
}

computed : Unit {0}
unfolding parse_rivile_document sum_lines
computed = tt

reads : parse_rivile_document 1 32 raw ≡ accepted document
unfolding computed
reads = refl

returns :
    parse_rivile_document 1 32 (record raw { operation = some return })
    ≡ accepted (record document {
      revenue = record { is_negative = true; cents = 100_000 };
      cost = record { is_negative = true; cents = 70_000 };
      margin = record { is_negative = true; cents = 30_000 };
      operation = return;
    })
unfolding computed
returns = refl

no_cost :
    parse_rivile_document 1 32 (record raw { lines = some (record line { cost = none } ∷ []) })
    ≡ failed invalid_financial_value
unfolding computed
no_cost = refl

only_service :
    parse_rivile_document 1 32 (record raw {
      lines = some (record line { code = service_code; line_type = service_type } ∷ []);
    })
    ≡ ignored
unfolding computed
only_service = refl

delivered :
    parse_rivile_document 1 32
      (record raw { lines = some (record line { code = delivery; line_type = service_type } ∷ []) })
    ≡ accepted document
unfolding computed
delivered = refl

too_late : parse_rivile_document 1 32 (record raw { date = some 32 }) ≡ failed invalid_id_or_date
unfolding computed
too_late = refl

parse_rivile_document-failed_iff_example :
    (is_failed (parse_rivile_document 1 32 raw) ≡ true) ↔ (¬ (HasAll 1 32 raw))
parse_rivile_document-failed_iff_example = parse_rivile_document-failed_iff 1 32 raw refl

parse_rivile_document-IsAccounted_example :
    (lines : List Line) × ((raw.lines ≡ some lines) × IsAccounted lines document)
parse_rivile_document-IsAccounted_example =
    parse_rivile_document-IsAccounted 1 32 raw document refl reads
