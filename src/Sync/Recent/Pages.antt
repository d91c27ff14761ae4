-- ===== src/Sync/Recent/Pages.antt =====
-- The pages of recent deals are read to the end, or the attempt fails.
use mathlib.Core.Path.{subst}
use amocrm_analytics.Base.{
  ℕ, zero, suc, ◌+◌, ◌-◌, ◌≤◌, ◌<◌, ◌≡◌, ◌≢◌, refl, Bool, true, false, ◌&&◌, not, List, [], ◌∷◌,
  leb, ltb, ◌==◌, length, arith, Bool-cases, inl, inr,
}
use amocrm_analytics.Sync.Recent.{
  RecentPage, complete, incomplete, out_of_fuel, is_empty, add_ids, count_stored, verified_rows,
  limit_at, deals_loop, sync_recent_deals,
}

complete_value : {a b : List ℕ} → complete a ≡ complete b → a ≡ b
complete_value e = cc

incomplete-complete : {a : List ℕ} → incomplete ≢ complete a
incomplete-complete e = cc

incomplete-out_of_fuel : incomplete ≢ out_of_fuel
incomplete-out_of_fuel e = cc

complete-out_of_fuel : {a : List ℕ} → complete a ≢ out_of_fuel
complete-out_of_fuel e = cc

verified_rows-ends :
    (stored : List ℕ → ℕ) (max_rows total : ℕ) (has_next : Bool) (ids : List ℕ)
    → verified_rows stored max_rows total has_next ids ≢ out_of_fuel
verified_rows-ends stored max_rows total has_next ids e =
    elim (Bool-cases (has_next && leb max_rows total)) [
      | inl cut ↦ incomplete-out_of_fuel (rw cut at e)
      | inr whole ↦ elim (Bool-cases (count_stored stored ids == length ids)) [
        | inl equal ↦ complete-out_of_fuel (rw (whole, equal) at e)
        | inr unequal ↦ incomplete-out_of_fuel (rw (whole, unequal) at e)
      ]
    ]

verified_rows-complete :
    (stored : List ℕ → ℕ) (max_rows total : ℕ) (has_next : Bool) (ids result : List ℕ)
    → verified_rows stored max_rows total has_next ids ≡ complete result
    → ((has_next && leb max_rows total) ≡ false)
      × (ids ≡ result)
      × (count_stored stored result ≡ length result)
verified_rows-complete stored max_rows total has_next ids result e =
    elim (Bool-cases (has_next && leb max_rows total)) [
      | inl cut ↦ absurd (incomplete-complete (rw cut at e))
      | inr whole ↦ elim (Bool-cases (count_stored stored ids == length ids)) [
        | inl equal ↦
            let same : ids ≡ result = complete_value (rw (whole, equal) at e) in
            let counted : count_stored stored ids ≡ length ids = ground arith in
            (whole, same, subst (λ l. count_stored stored l ≡ length l) same counted)
        | inr unequal ↦ absurd (incomplete-complete (rw (whole, unequal) at e))
      ]
    ]

length-is_empty : (ids : List ℕ) → is_empty ids ≡ false → 1 ≤ length ids
length-is_empty [] e = cc
length-is_empty (x ∷ xs) e = omega arith

module _ (page_of : (page limit : ℕ) → RecentPage) (stored : List ℕ → ℕ)
    (page_limit max_rows : ℕ) where
  -- From a page on, with what is known before it, every page up to the last one adds its ids.
  pub data ReadsToEnd : (page total : ℕ) (known result : List ℕ) → Type 0 where
    at_empty :
        {page total : ℕ} {known : List ℕ}
        → is_empty ((page_of page (limit_at page_limit max_rows total)).ids) ≡ true
        → ReadsToEnd page total known known
    at_last :
        {page total : ℕ} {known : List ℕ}
        → (page_of page (limit_at page_limit max_rows total)).has_next ≡ false
        → ReadsToEnd page total known
            (add_ids ((page_of page (limit_at page_limit max_rows total)).ids) known)
    after_page :
        {page total : ℕ} {known result : List ℕ}
        → (page_of page (limit_at page_limit max_rows total)).has_next ≡ true
        → ReadsToEnd
            (suc page)
            (total + length ((page_of page (limit_at page_limit max_rows total)).ids))
            (add_ids ((page_of page (limit_at page_limit max_rows total)).ids) known)
            result
        → ReadsToEnd page total known result

  deals_loop-ends :
      (fuel page total : ℕ) (has_next : Bool) (ids : List ℕ)
      → max_rows - total < fuel
      → deals_loop page_of stored page_limit max_rows fuel page total has_next ids ≢ out_of_fuel
  unfolding deals_loop
  deals_loop-ends zero page total has_next ids h e = absurd (omega arith)
  deals_loop-ends (suc fuel) page total has_next ids h e =
      let got = page_of page (limit_at page_limit max_rows total) in
      elim (Bool-cases (not (ltb total max_rows))) [
        | inl full ↦ verified_rows-ends stored max_rows total has_next ids (rw full at e)
        | inr room ↦ elim (Bool-cases (is_empty got.ids)) [
          | inl empty ↦
              verified_rows-ends stored max_rows total has_next ids (rw (room, empty) at e)
          | inr some_ids ↦ elim (Bool-cases (not got.has_next)) [
            | inl last ↦
                verified_rows-ends stored max_rows (total + length got.ids) false
                  (add_ids got.ids ids) (rw (room, some_ids, last) at e)
            | inr more ↦
                let grows = length-is_empty got.ids some_ids in
                deals_loop-ends fuel (suc page) (total + length got.ids) true (add_ids got.ids ids)
                  (ground arith) (rw (room, some_ids, more) at e)
          ]
        ]
      ]

  deals_loop-ReadsToEnd :
      (fuel page total : ℕ) (has_next : Bool) (ids result : List ℕ)
      → (leb max_rows total ≡ true → has_next ≡ true)
      → deals_loop page_of stored page_limit max_rows fuel page total has_next ids ≡ complete result
      → ReadsToEnd page total ids result × (count_stored stored result ≡ length result)
  unfolding deals_loop
  deals_loop-ReadsToEnd zero page total has_next ids result h e = cc
  deals_loop-ReadsToEnd (suc fuel) page total has_next ids result h e =
      let got = page_of page (limit_at page_limit max_rows total) in
      elim (Bool-cases (not (ltb total max_rows))) [
        | inl full ↦
            let (whole, same, counted) =
              verified_rows-complete stored max_rows total has_next ids result (rw full at e) in
            absurd (ground arith)
        | inr room ↦ elim (Bool-cases (is_empty got.ids)) [
          | inl empty ↦
              let (whole, same, counted) =
                verified_rows-complete stored max_rows total has_next ids result
                  (rw (room, empty) at e) in
              (subst (ReadsToEnd page total ids) same (at_empty empty), counted)
          | inr some_ids ↦ elim (Bool-cases (not got.has_next)) [
            | inl last ↦
                let (whole, same, counted) =
                  verified_rows-complete stored max_rows (total + length got.ids) false
                    (add_ids got.ids ids) result (rw (room, some_ids, last) at e) in
                (subst (ReadsToEnd page total ids) same (at_last (ground arith)), counted)
            | inr more ↦
                let (later, counted) =
                  deals_loop-ReadsToEnd fuel (suc page) (total + length got.ids) true
                    (add_ids got.ids ids) result (λ k. refl) (rw (room, some_ids, more) at e) in
                (after_page (ground arith) later, counted)
          ]
        ]
      ]

-- The reading of recent deals ends, whatever pages there are.
pub sync_recent_deals-ends :
    (page_of : (page limit : ℕ) → RecentPage) (stored : List ℕ → ℕ) (page_limit max_rows : ℕ)
    → sync_recent_deals page_of stored page_limit max_rows ≢ out_of_fuel
unfolding sync_recent_deals
sync_recent_deals-ends page_of stored page_limit max_rows =
    deals_loop-ends page_of stored page_limit max_rows (suc max_rows) 1 0 false [] (omega arith)

-- If the reading of recent deals succeeds, it read every page up to the last one, and the database has a row
-- of each deal of them, if at least one row may be read.
pub sync_recent_deals-ReadsToEnd :
    (page_of : (page limit : ℕ) → RecentPage) (stored : List ℕ → ℕ) (page_limit max_rows : ℕ)
    (ids : List ℕ)
    → 1 ≤ max_rows
    → sync_recent_deals page_of stored page_limit max_rows ≡ complete ids
    → ReadsToEnd page_of stored page_limit max_rows 1 0 [] ids
      × (count_stored stored ids ≡ length ids)
unfolding sync_recent_deals
sync_recent_deals-ReadsToEnd page_of stored page_limit max_rows ids h e =
    deals_loop-ReadsToEnd page_of stored page_limit max_rows (suc max_rows) 1 0 false [] ids
      (ground arith) e
