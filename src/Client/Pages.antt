-- ===== src/Client/Pages.antt =====
-- What the walk over the pages collects.
use amocrm_analytics.Base.{
  ℕ, zero, suc, ◌+◌, ◌<◌, ◌≡◌, refl, ap, ◌∙◌, Bool, true, false, Option, none, some, List, [], ◌∷◌,
  ◌++◌, arith,
}
use amocrm_analytics.Client.{
  Page, turn, paginate_loop, paginate, paginate_batch_loop, paginate_batch,
}

module _ {A : Type 0} (get : ℕ → Page A) where
  -- `n` full pages come before the page that ends the list, and these are the items from `page` on.
  pub data Ends : (n page : ℕ) → List A → Type 0 where
    no_items : {page : ℕ} → (get page).items ≡ none → Ends 0 page []
    empty_page : {page : ℕ} → (get page).items ≡ some [] → Ends 0 page []
    last_page :
        {page : ℕ} (x : A) (xs : List A)
        → (get page).items ≡ some (x ∷ xs)
        → (get page).has_next ≡ false
        → Ends 0 page (x ∷ xs)
    full_page :
        {n page : ℕ} {ys : List A} (x : A) (xs : List A)
        → (get page).items ≡ some (x ∷ xs)
        → (get page).has_next ≡ true
        → Ends n (page + 1) ys
        → Ends (suc n) page (x ∷ xs ++ ys)

  turn_same :
      {B : Type 0} (items : Option (List A)) (next : Bool) (stop : B) (last more more' : List A → B)
      → ((l : List A) → more l ≡ more' l)
      → turn get items next stop last more ≡ turn get items next stop last more'
  turn_same none next stop last more more' h = refl
  turn_same (some []) next stop last more more' h = refl
  turn_same (some (x ∷ xs)) true stop last more more' h = h (x ∷ xs)
  turn_same (some (x ∷ xs)) false stop last more more' h = refl

  append_assoc : (xs ys zs : List A) → (xs ++ ys) ++ zs ≡ xs ++ (ys ++ zs)
  append_assoc [] ys zs = refl
  append_assoc (x ∷ xs) ys zs = ap (λ l. x ∷ l) (append_assoc xs ys zs)

  append_nil : (xs : List A) → xs ++ [] ≡ xs
  append_nil [] = refl
  append_nil (x ∷ xs) = ap (λ l. x ∷ l) (append_nil xs)

  paginate_loop-Ends :
      (fuel : ℕ) {n page : ℕ} {ys : List A} (result : List A)
      → Ends n page ys
      → n < fuel
      → paginate_loop get fuel page result ≡ some (result ++ ys)
  unfolding paginate_loop
  paginate_loop-Ends zero result ends enough = absurd (omega (arith, enough))
  paginate_loop-Ends (suc fuel) result (no_items e) enough = rw (e, append_nil result) refl
  paginate_loop-Ends (suc fuel) result (empty_page e) enough = rw (e, append_nil result) refl
  paginate_loop-Ends (suc fuel) result (last_page x xs e last) enough = rw (e, last) refl
  paginate_loop-Ends (suc fuel) result (full_page {ys = ys} x xs e more rest) enough =
      rw (e, more)
        (paginate_loop-Ends fuel (result ++ x ∷ xs) rest (omega (arith, enough))
          ∙ ap some (append_assoc result (x ∷ xs) ys))

  -- If the list ends after `n` full pages, then with more fuel than that the walk returns exactly the
  -- items of its pages, in order.
  pub paginate-Ends :
      (n fuel : ℕ) (ys : List A) → Ends n 1 ys → n < fuel → paginate get fuel ≡ some ys
  unfolding paginate
  paginate-Ends n fuel ys ends enough = paginate_loop-Ends fuel [] ends enough

  batches_of :
      (fuel page : ℕ) (s : List A)
      → paginate_batch_loop get (λ s items page. s ++ items) fuel page s
        ≡ paginate_loop get fuel page s
  unfolding paginate_loop paginate_batch_loop
  batches_of zero page s = refl
  batches_of (suc fuel) page s =
      turn_same (get page).items (get page).has_next (some s) (λ items. some (s ++ items))
        (λ items. paginate_batch_loop get (λ s items page. s ++ items) fuel (page + 1) (s ++ items))
        (λ items. paginate_loop get fuel (page + 1) (s ++ items))
        (λ items. batches_of fuel (page + 1) (s ++ items))

  -- The walk by batches, with a caller that appends each batch to what it has, collects the same items.
  pub paginate_batch-paginate :
      (fuel : ℕ) → paginate_batch get (λ s items page. s ++ items) fuel [] ≡ paginate get fuel
  unfolding paginate_batch paginate
  paginate_batch-paginate fuel = batches_of fuel 1 []
