-- ===== src/Workspaces/Shipments/Links.antt =====
-- The links of shipments to sales and managers (`CommercialLinksService.reconcile` of
-- apps/api/src/workspaces/commercial-links.service.ts). The rows that the queries return are arguments;
-- `evidence` is a number for the JSON of the evidence, and an owner in an event is what
-- `responsibleExternalId` reads from its value.
use amocrm_analytics.Base.{
  ℕ, Bool, true, false, ◌&&◌, ◌||◌, not, Option, none, some, List, [], ◌∷◌, ltb, leb, ◌==◌, filter,
  length, if◌then◌else◌,
}
use amocrm_analytics.Workspaces.Shipments.{
  Choice, identified, ambiguous, unresolved, same_invoice, is_given,
}

pub record OwnerEvent : Type 0 where
  pub owner_before : Option ℕ
  pub owner_after : Option ℕ

pub record OwnerHistory : Type 0 where
  pub from_user : Option ℕ
  pub to_user : Option ℕ

pub record Sale : Type 0 where
  pub id : ℕ
  pub updated_at : ℕ
  pub responsible : Option ℕ

pub record Payment : Type 0 where
  pub at : ℕ
  pub department : ℕ

abbrev find_user : (crm_user : ℕ → Option ℕ) → Option ℕ → Option ℕ
find_user crm_user none = none
find_user crm_user (some id) = crm_user id

abbrev same_option : Option ℕ → Option ℕ → Bool
same_option none none = true
same_option (some a) (some b) = a == b
same_option _ _ = false

-- Who the sale belonged to when the shipment was created.
unfoldable pub owner_of :
    (crm_user : ℕ → Option ℕ) (previous_event next_event : Option OwnerEvent)
    (prior future : Option OwnerHistory)
    → Sale
    → (created_at : ℕ) (shipment_responsible : Option ℕ) → Option ℕ
owner_of crm_user (some e) next_event prior future sale created_at responsible =
    find_user crm_user e.owner_after
owner_of crm_user none (some e) prior future sale created_at responsible =
    find_user crm_user e.owner_before
owner_of crm_user none none (some h) future sale created_at responsible = h.to_user
owner_of crm_user none none none (some h) sale created_at responsible = h.from_user
owner_of crm_user none none none none sale created_at responsible =
    if leb sale.updated_at created_at && same_option sale.responsible responsible
    then sale.responsible
    else none

-- The latest of the payments, the first of those at one time.
abbrev later_payment : Payment → Option Payment → Payment
later_payment p none = p
later_payment p (some q) = if ltb p.at q.at then q else p

abbrev latest : List Payment → Option Payment
latest [] = none
latest (p ∷ ps) = some (later_payment p (latest ps))

unfoldable pub payment_before : (created_at : ℕ) → List Payment → Option Payment
payment_before created_at ps = latest (filter (λ p. leb p.at created_at) ps)

pub data LinkStatus : Type 0 where
  link_confirmed link_ambiguous link_unresolved allocation_required : LinkStatus

pub data LinkSource : Type 0 where
  invoice_payment manual_confirmed document_identity document_payment_identity : LinkSource

pub record Link : Type 0 where
  pub sale : Option ℕ
  pub manager : Option ℕ
  pub department : Option ℕ
  pub status : LinkStatus
  pub source : LinkSource
  pub evidence : ℕ

abbrev pub is_confirmed : LinkStatus → Bool
is_confirmed link_confirmed = true
is_confirmed _ = false

abbrev is_settled : LinkStatus → Bool
is_settled link_confirmed = true
is_settled allocation_required = true
is_settled _ = false

abbrev pub is_manual : LinkSource → Bool
is_manual manual_confirmed = true
is_manual _ = false

abbrev is_legacy : LinkSource → Bool
is_legacy document_identity = true
is_legacy document_payment_identity = true
is_legacy _ = false

abbrev department_of : Option Payment → Option ℕ
department_of none = none
department_of (some p) = some p.department

-- `confirmed` is `selected.saleDealId && managerId && departmentKey`.
unfoldable pub link_status : Choice → (manager department : Option ℕ) → LinkStatus
link_status (identified id) manager department =
    if is_given manager && is_given department then link_confirmed else link_unresolved
link_status ambiguous manager department = link_ambiguous
link_status unresolved manager department = link_unresolved

abbrev new_link : (sale manager department : Option ℕ) → LinkStatus → (evidence : ℕ) → Link
new_link sale manager department status evidence = record {
  sale = sale;
  manager = manager;
  department = department;
  status = status;
  source = invoice_payment;
  evidence = evidence;
}

-- What is written for a shipment: `manager` and `paid` are those of the sale that was chosen.
unfoldable pub link_data :
    Choice → (manager : Option ℕ) (paid : Option Payment) (evidence : ℕ) → Link
link_data (identified id) manager paid evidence =
    new_link (some id) manager (department_of paid)
      (link_status (identified id) manager (department_of paid)) evidence
link_data choice manager paid evidence =
    new_link none none none (link_status choice none none) evidence

abbrev same_status : LinkStatus → LinkStatus → Bool
same_status link_confirmed link_confirmed = true
same_status link_ambiguous link_ambiguous = true
same_status link_unresolved link_unresolved = true
same_status allocation_required allocation_required = true
same_status _ _ = false

abbrev is_current : LinkSource → Bool
is_current invoice_payment = true
is_current _ = false

abbrev unchanged : Link → Link → Bool
unchanged p data' =
    same_option p.sale data'.sale
    && (same_option p.manager data'.manager
        && (same_option p.department data'.department
            && (same_status p.status data'.status
                && (is_current p.source && p.evidence == data'.evidence))))

-- The `upsert` and the guarded update after it; `previous` is the row as it was read and `row` as it is.
unfoldable pub write_link : (previous row : Option Link) → Link → Option Link
write_link previous row data' =
    if elim previous [ none ↦ false | some p ↦ unchanged p data' ] then row else elim row [
      | none ↦ some data'
      | some r ↦
          if not (is_manual r.source) && (not (is_settled r.status) || is_legacy r.source)
          then some data'
          else some r
    ]

-- A row of the table, with whether the card of the shipment was deleted.
pub record LinkRow : Type 0 where
  pub shipment : ℕ
  pub deleted : Bool
  pub link : Link

-- The links of the sale whose shipments are not deleted.
unfoldable pub sale_count : (sale : ℕ) → List LinkRow → ℕ
sale_count sale rows =
    length (filter (λ r. same_invoice r.link.sale (some sale) && not r.deleted) rows)

abbrev pub is_shared : Option ℕ → List LinkRow → Bool
is_shared none rows = false
is_shared (some sale) rows = ltb 1 (sale_count sale rows)

abbrev pub allocate_row : (all : List LinkRow) → LinkRow → LinkRow
allocate_row all r =
    if is_confirmed r.link.status && (not (is_manual r.link.source) && is_shared r.link.sale all)
    then record r { link = record r.link { status = allocation_required } }
    else r

abbrev pub allocate_rows : (all : List LinkRow) → List LinkRow → List LinkRow
allocate_rows all [] = []
allocate_rows all (r ∷ rs) = allocate_row all r ∷ allocate_rows all rs

-- The last statement: shipments that share a sale wait for a person. The reason that it adds to the
-- evidence is left out.
unfoldable pub allocate : List LinkRow → List LinkRow
allocate rows = allocate_rows rows rows

-- One shipment of the work: its link as it was read, and what was found.
pub record Work : Type 0 where
  pub shipment : ℕ
  pub previous : Option Link
  pub found : Link

abbrev new_row : Work → Option Link → List LinkRow
new_row w none = []
new_row w (some l) = record { shipment = w.shipment; deleted = false; link = l } ∷ []

abbrev pub keep_or : LinkRow → Option Link → LinkRow
keep_or r none = r
keep_or r (some l) = record r { link = l }

unfoldable pub put_link : Work → List LinkRow → List LinkRow
put_link w [] = new_row w (write_link w.previous none w.found)
put_link w (r ∷ rs) =
    let rest = put_link w rs in
    if r.shipment == w.shipment
    then keep_or r (write_link w.previous (some r.link) w.found) ∷ rs
    else r ∷ rest

unfoldable pub put_links : List Work → List LinkRow → List LinkRow
put_links [] rows = rows
put_links (w ∷ ws) rows = put_links ws (put_link w rows)

-- The writes of `reconcile`.
unfoldable pub reconcile_links : List Work → List LinkRow → List LinkRow
reconcile_links work rows = allocate (put_links work rows)

-- The row of a shipment.
unfoldable pub link_at : (shipment : ℕ) → List LinkRow → Option LinkRow
link_at shipment [] = none
link_at shipment (r ∷ rs) =
    let rest = link_at shipment rs in if r.shipment == shipment then some r else rest
