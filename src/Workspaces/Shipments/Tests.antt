-- ===== src/Workspaces/Shipments/Tests.antt =====
-- The cases of apps/api/src/workspaces/shipment-link-policy.spec.ts, and a reconciliation of three rows.
use amocrm_analytics.Base.{ℕ, ◌≡◌, refl, false, none, some, List, [], ◌∷◌, All, ◌↔◌}
use amocrm_analytics.Workspaces.Shipments.{
  Json, text_json, null_json, object, field, no_fields, file_key, identifier, file_ids, Shipment,
  Candidate, identified, ambiguous, unresolved, is_match, choose_shipment_source,
}
use amocrm_analytics.Workspaces.Shipments.Source.{IsSource}
use amocrm_analytics.Workspaces.Shipments.Unique.{IsOnly, choose_shipment_source-identified_iff}
use amocrm_analytics.Workspaces.Shipments.Links.{
  Link, Payment, payment_before, link_data, link_status, link_confirmed, allocation_required,
  invoice_payment, manual_confirmed, LinkRow, Work, write_link, put_link, put_links, allocate,
  sale_count, reconcile_links, link_at,
}
use amocrm_analytics.Workspaces.Shipments.Settled.{
  IsUnshared, reconcile_links-IsUnshared, reconcile_links-manual,
}

abbrev number_of : ℕ → Json
number_of n = text_json (record { whole = n; trimmed = n; size = 7; is_placeholder = false })

abbrev file_of : ℕ → Json
file_of n = object (
    field file_key
      (text_json (record { whole = n; trimmed = n; size = 27; is_placeholder = false })) no_fields)

abbrev shipment : Shipment
shipment = record { invoice = number_of 1; document = file_of 50; created_at = 23 }

abbrev sale : Candidate
sale = record {
  id = 9;
  invoice = number_of 1;
  document = file_of 50;
  created_at = 20;
  paid_at = some 22;
}

abbrev copy_of_sale : Candidate
copy_of_sale = record sale { id = 10; paid_at = none }

abbrev other_sale : Candidate
other_sale = record sale { id = 11 }

computed : Unit {0}
unfolding choose_shipment_source is_match identifier file_ids
computed = tt

unique : choose_shipment_source shipment (sale ∷ copy_of_sale ∷ []) ≡ identified 9
unfolding computed
unique = refl

two_sales : choose_shipment_source shipment (sale ∷ other_sale ∷ []) ≡ ambiguous
unfolding computed
two_sales = refl

paid_too_late :
    choose_shipment_source shipment (record sale { paid_at = some 24 } ∷ []) ≡ unresolved
unfolding computed
paid_too_late = refl

other_document :
    choose_shipment_source (record shipment { document = file_of 51 }) (sale ∷ []) ≡ unresolved
unfolding computed
other_document = refl

nothing_known :
    choose_shipment_source
      (record shipment { invoice = null_json; document = null_json })
      (sale ∷ [])
    ≡ unresolved
unfolding computed
nothing_known = refl

choose_shipment_source-identified_iff_example :
    (choose_shipment_source shipment (sale ∷ copy_of_sale ∷ []) ≡ identified 9)
    ↔ IsOnly (IsSource shipment) 9 (sale ∷ copy_of_sale ∷ [])
choose_shipment_source-identified_iff_example =
    choose_shipment_source-identified_iff shipment (sale ∷ copy_of_sale ∷ []) 9

abbrev link_of_9 : Link
link_of_9 = record {
  sale = some 9;
  manager = some 3;
  department = some 4;
  status = link_confirmed;
  source = invoice_payment;
  evidence = 0;
}

abbrev by_hand : LinkRow
by_hand = record {
  shipment = 70;
  deleted = false;
  link = record link_of_9 { source = manual_confirmed };
}

abbrev work : List Work
work =
    record { shipment = 70; previous = none; found = link_of_9 }
    ∷ record { shipment = 71; previous = none; found = link_of_9 }
    ∷ []

abbrev paid_list : List Payment
paid_list = record { at = 20; department = 5 } ∷ record { at = 22; department = 4 } ∷ []

found : link_data (identified 9) (some 3) (payment_before 23 paid_list) 0 ≡ link_of_9
unfolding link_data payment_before link_status
found = refl

reconciled :
    reconcile_links work (by_hand ∷ [])
    ≡ by_hand
      ∷ record {
        shipment = 71;
        deleted = false;
        link = record link_of_9 { status = allocation_required };
      }
      ∷ []
unfolding reconcile_links put_links put_link write_link allocate sale_count
reconciled = refl

reconcile_links-IsUnshared_example :
    All (IsUnshared (reconcile_links work (by_hand ∷ []))) (reconcile_links work (by_hand ∷ []))
reconcile_links-IsUnshared_example = reconcile_links-IsUnshared work (by_hand ∷ [])

by_hand-there : link_at 70 (by_hand ∷ []) ≡ some by_hand
unfolding link_at
by_hand-there = refl

reconcile_links-manual_example : link_at 70 (reconcile_links work (by_hand ∷ [])) ≡ some by_hand
reconcile_links-manual_example =
    reconcile_links-manual work (by_hand ∷ []) 70 by_hand refl by_hand-there
