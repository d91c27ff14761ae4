-- ===== src/Workspaces/Shipments/Settled.antt =====
-- What a reconciliation leaves: what a person confirmed, and no sale counted twice.
use amocrm_analytics.Base.{
  ℕ, ◌+◌, ◌≤◌, ◌≡◌, ◌∙◌, refl, sym, ap, Bool, true, false, ◌&&◌, not, some, List, [], ◌∷◌, ◌==◌,
  filter, length, All, arith, if◌then◌else◌, Bool-cases, inl, inr,
}
use amocrm_analytics.Workspaces.Shipments.{same_invoice}
use amocrm_analytics.Workspaces.Shipments.Links.{
  is_confirmed, is_manual, LinkRow, sale_count, is_shared, allocate_row, allocate_rows, allocate,
  Work, write_link, put_link, put_links, reconcile_links, link_at,
}

-- A link that CONFIRMED stands for, without a person, is the only one of its sale.
abbrev pub IsUnshared : List LinkRow → LinkRow → Type 0
IsUnshared all r =
    (sale : ℕ)
    → is_confirmed r.link.status ≡ true
    → is_manual r.link.source ≡ false
    → r.link.sale ≡ some sale
    → sale_count sale all ≤ 1

allocate_row-IsUnshared : (all : List LinkRow) (r : LinkRow) → IsUnshared all (allocate_row all r)
allocate_row-IsUnshared all r sale confirmed machine is = ground arith

allocate_rows-IsUnshared : (all rows : List LinkRow) → All (IsUnshared all) (allocate_rows all rows)
allocate_rows-IsUnshared all [] = tt
allocate_rows-IsUnshared all (r ∷ rs) =
    (allocate_row-IsUnshared all r, allocate_rows-IsUnshared all rs)

abbrev of_sale : ℕ → LinkRow → Bool
of_sale sale r = same_invoice r.link.sale (some sale) && not r.deleted

allocate_row-of_sale :
    (all : List LinkRow) (sale : ℕ) (r : LinkRow)
    → of_sale sale (allocate_row all r) ≡ of_sale sale r
allocate_row-of_sale all sale r =
    elim (Bool-cases (
      is_confirmed r.link.status && (not (is_manual r.link.source) && is_shared r.link.sale all))) [
        | inl y ↦ rw y refl
        | inr n ↦ rw n refl
      ]

length-filter_cons :
    (p : LinkRow → Bool) (r : LinkRow) (rs : List LinkRow)
    → length (filter p (r ∷ rs)) ≡ (if p r then 1 else 0) + length (filter p rs)
length-filter_cons p r rs = elim (Bool-cases (p r)) [
  | inl y ↦ rw y (omega arith)
  | inr n ↦ rw n (omega arith)
]

sale_count-allocate_rows :
    (all rows : List LinkRow) (sale : ℕ)
    → sale_count sale (allocate_rows all rows) ≡ sale_count sale rows
unfolding sale_count
sale_count-allocate_rows all [] sale = refl
sale_count-allocate_rows all (r ∷ rs) sale =
    length-filter_cons (of_sale sale) (allocate_row all r) (allocate_rows all rs)
    ∙ ap (λ b. (if b then 1 else 0) + length (filter (of_sale sale) (allocate_rows all rs)))
        (allocate_row-of_sale all sale r)
    ∙ ap (λ n. (if of_sale sale r then 1 else 0) + n) (sale_count-allocate_rows all rs sale)
    ∙ sym (length-filter_cons (of_sale sale) r rs)

IsUnshared-weaken :
    (all all' : List LinkRow) (rows : List LinkRow)
    → ((sale : ℕ) → sale_count sale all' ≡ sale_count sale all)
    → All (IsUnshared all) rows
    → All (IsUnshared all') rows
IsUnshared-weaken all all' [] e h = tt
IsUnshared-weaken all all' (r ∷ rs) e (first, rest) =
    ((λ sale c m is. rw (e sale) (first sale c m is)), IsUnshared-weaken all all' rs e rest)

-- After a reconciliation no sale is counted twice: a link that is CONFIRMED and that no person set is the
-- only link of its sale among the shipments that are not deleted.
pub reconcile_links-IsUnshared :
    (work : List Work) (rows : List LinkRow)
    → All (IsUnshared (reconcile_links work rows)) (reconcile_links work rows)
unfolding reconcile_links allocate
reconcile_links-IsUnshared work rows =
    let before = put_links work rows in
    IsUnshared-weaken before (allocate_rows before before) (allocate_rows before before)
      (sale_count-allocate_rows before before) (allocate_rows-IsUnshared before before)

put_link-manual :
    (w : Work) (rows : List LinkRow) (shipment : ℕ) (r : LinkRow)
    → is_manual r.link.source ≡ true
    → link_at shipment rows ≡ some r
    → link_at shipment (put_link w rows) ≡ some r
unfolding put_link link_at write_link
put_link-manual w [] shipment r manual e = cc
put_link-manual w (q ∷ rows) shipment r manual e =
    ground (arith, put_link-manual w rows shipment r manual)

put_links-manual :
    (work : List Work) (rows : List LinkRow) (shipment : ℕ) (r : LinkRow)
    → is_manual r.link.source ≡ true
    → link_at shipment rows ≡ some r
    → link_at shipment (put_links work rows) ≡ some r
unfolding put_links
put_links-manual [] rows shipment r manual e = e
put_links-manual (w ∷ ws) rows shipment r manual e =
    put_links-manual ws (put_link w rows) shipment r manual
      (put_link-manual w rows shipment r manual e)

allocate_row-manual :
    (all : List LinkRow) (r : LinkRow) → is_manual r.link.source ≡ true → allocate_row all r ≡ r
allocate_row-manual all r manual = ground arith

allocate_row-shipment :
    (all : List LinkRow) (r : LinkRow) → (allocate_row all r).shipment ≡ r.shipment
allocate_row-shipment all r = ground arith

allocate_rows-manual :
    (all rows : List LinkRow) (shipment : ℕ) (r : LinkRow)
    → is_manual r.link.source ≡ true
    → link_at shipment rows ≡ some r
    → link_at shipment (allocate_rows all rows) ≡ some r
unfolding link_at
allocate_rows-manual all [] shipment r manual e = e
allocate_rows-manual all (q ∷ rows) shipment r manual e =
    rw (allocate_row-shipment all q) (elim (Bool-cases (q.shipment == shipment)) [
      | inl y ↦
          let first : some q ≡ some r = rw y at e in
          let same : q ≡ r = cc in
          rw y (ap some (ap (allocate_row all) same ∙ allocate_row-manual all r manual))
      | inr n ↦
          let rest : link_at shipment rows ≡ some r = rw n at e in
          rw n (allocate_rows-manual all rows shipment r manual rest)
    ])

-- A link that a person confirmed is the same after a reconciliation, whatever was found for its shipment
-- and for others.
pub reconcile_links-manual :
    (work : List Work) (rows : List LinkRow) (shipment : ℕ) (r : LinkRow)
    → is_manual r.link.source ≡ true
    → link_at shipment rows ≡ some r
    → link_at shipment (reconcile_links work rows) ≡ some r
unfolding reconcile_links allocate
reconcile_links-manual work rows shipment r manual e =
    allocate_rows-manual (put_links work rows) (put_links work rows) shipment r manual
      (put_links-manual work rows shipment r manual e)
