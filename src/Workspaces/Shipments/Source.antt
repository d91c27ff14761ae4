-- ===== src/Workspaces/Shipments/Source.antt =====
-- When a shipment can come from a sale, in words of the two and not of the test.
use amocrm_analytics.Base.{
  ℕ, ◌≤◌, ◌≡◌, ◌∙◌, refl, ap, Bool, true, false, Option, none, some, List, [], ◌∷◌, ◌==◌, any,
  arith, ◌↔◌, ◌⊎◌, Bool-cases, inl, inr,
}
use amocrm_analytics.Workspaces.Shipments.{
  identifier, includes, not_paid_by, file_ids, Shipment, Candidate, same_invoice, other_invoice,
  is_empty, shares, is_match,
}

-- The two have the same number of an invoice.
abbrev pub SameInvoice : Shipment → Candidate → Type 0
SameInvoice s c = (i : ℕ) × ((identifier s.invoice ≡ some i) × (identifier c.invoice ≡ some i))

-- The two have a file in common.
abbrev pub SameFile : Shipment → Candidate → Type 0
SameFile s c =
    (f : ℕ) × ((includes f (file_ids s.document) ≡ true)
      × (includes f (file_ids c.document) ≡ true))

-- The shipment can come from the sale: it was created and paid before, nothing about the invoice or the
-- documents tells them apart, and they have the invoice or a document in common.
pub record IsSource (s : Shipment) (c : Candidate) : Type 0 where
  pub paid : (t : ℕ) × ((c.paid_at ≡ some t) × (t ≤ s.created_at))
  pub created : c.created_at ≤ s.created_at
  pub invoices : (identifier s.invoice ≡ none) ⊎ ((identifier c.invoice ≡ none) ⊎ SameInvoice s c)
  pub documents : (file_ids s.document ≡ []) ⊎ ((file_ids c.document ≡ []) ⊎ SameFile s c)
  pub common : SameInvoice s c ⊎ SameFile s c

any-some :
    (p : ℕ → Bool) (b : List ℕ) → any p b ≡ true → (f : ℕ) × ((p f ≡ true) × (includes f b ≡ true))
any-some p [] h = cc
any-some p (g ∷ b) h = elim (Bool-cases (p g)) [
  | inl y ↦ (g, (y, ground arith))
  | inr n ↦ let (f, (holds, among)) = any-some p b (rw n at h) in (f, (holds, ground arith))
]

some-any : (p : ℕ → Bool) (b : List ℕ) (f : ℕ) → p f ≡ true → includes f b ≡ true → any p b ≡ true
some-any p [] f h among = cc
some-any p (g ∷ b) f h among = elim (Bool-cases (g == f)) [
  | inl same ↦
      let equal : g ≡ f = ground arith in let first : p g ≡ true = ap p equal ∙ h in rw first refl
  | inr other ↦ let rest = some-any p b f h (rw other at among) in rw rest (ground arith)
]

shares_of_file :
    (s : Shipment) (c : Candidate)
    → SameFile s c
    → shares (file_ids s.document) (file_ids c.document) ≡ true
shares_of_file s c (f, (mine, other)) =
    some-any (λ g. includes g (file_ids s.document)) (file_ids c.document) f mine other

file_of_shares :
    (s : Shipment) (c : Candidate)
    → shares (file_ids s.document) (file_ids c.document) ≡ true
    → SameFile s c
file_of_shares s c h = any-some (λ g. includes g (file_ids s.document)) (file_ids c.document) h

not_paid_by_iff :
    (o : Option ℕ) (at : ℕ) → (not_paid_by o at ≡ false) ↔ ((t : ℕ) × ((o ≡ some t) × (t ≤ at)))
not_paid_by_iff none at = ((λ h. cc), λ (t, (e, h)). cc)
not_paid_by_iff (some u) at = ((λ h. (u, (refl, ground arith))), λ (t, (e, h)). ground arith)

same_invoice_iff :
    (a b : Option ℕ) → (same_invoice a b ≡ true) ↔ ((i : ℕ) × ((a ≡ some i) × (b ≡ some i)))
same_invoice_iff none b = ((λ h. cc), λ (i, (e, f)). cc)
same_invoice_iff (some x) none = ((λ h. cc), λ (i, (e, f)). cc)
same_invoice_iff (some x) (some y) = ((λ h. (x, (refl, ground arith))), λ (i, (e, f)). ground arith)

other_invoice-cases :
    (a b : Option ℕ)
    → other_invoice a b ≡ false
    → (a ≡ none) ⊎ ((b ≡ none) ⊎ (same_invoice a b ≡ true))
other_invoice-cases none b h = inl refl
other_invoice-cases (some x) none h = inr (inl refl)
other_invoice-cases (some x) (some y) h = inr (inr (ground arith))

other_invoice-of_cases :
    (a b : Option ℕ)
    → (a ≡ none) ⊎ ((b ≡ none) ⊎ (same_invoice a b ≡ true))
    → other_invoice a b ≡ false
other_invoice-of_cases none b h = refl
other_invoice-of_cases (some x) none h = refl
other_invoice-of_cases (some x) (some y) h = ground arith

is_empty_iff : (l : List ℕ) → (is_empty l ≡ true) ↔ (l ≡ [])
is_empty_iff [] = ((λ h. refl), λ h. refl)
is_empty_iff (x ∷ l) = ((λ h. cc), λ h. ap is_empty h)

-- The test, by its parts.
record Parts (s : Shipment) (c : Candidate) : Type 0 where
  paid : not_paid_by c.paid_at s.created_at ≡ false
  created : c.created_at ≤ s.created_at
  invoices : other_invoice (identifier s.invoice) (identifier c.invoice) ≡ false
  documents :
      (is_empty (file_ids s.document) ≡ true)
      ⊎ ((is_empty (file_ids c.document) ≡ true)
          ⊎ (shares (file_ids s.document) (file_ids c.document) ≡ true))
  common :
      (same_invoice (identifier s.invoice) (identifier c.invoice) ≡ true)
      ⊎ (shares (file_ids s.document) (file_ids c.document) ≡ true)

is_match-Parts : (s : Shipment) (c : Candidate) → is_match s c ≡ true → Parts s c
unfolding is_match
is_match-Parts s c h = record {
  paid = ground arith;
  created = ground arith;
  invoices = ground arith;
  documents = ground arith;
  common = ground arith;
}

Parts-is_match : (s : Shipment) (c : Candidate) → Parts s c → is_match s c ≡ true
unfolding is_match
Parts-is_match s c p =
    let paid = p.paid in
    let created = p.created in
    let invoices = p.invoices in
    let documents = p.documents in let common = p.common in ground arith

pub is_match-iff_IsSource : (s : Shipment) (c : Candidate) → (is_match s c ≡ true) ↔ IsSource s c
is_match-iff_IsSource s c = (to, from)
  where
    invoice_of : same_invoice (identifier s.invoice) (identifier c.invoice) ≡ true → SameInvoice s c
    invoice_of = (same_invoice_iff (identifier s.invoice) (identifier c.invoice)).0

    of_invoice : SameInvoice s c → same_invoice (identifier s.invoice) (identifier c.invoice) ≡ true
    of_invoice = (same_invoice_iff (identifier s.invoice) (identifier c.invoice)).1

    to : is_match s c ≡ true → IsSource s c
    to h =
        let p = is_match-Parts s c h in
        record {
          paid = (not_paid_by_iff c.paid_at s.created_at).0 p.paid;
          created = p.created;
          invoices = elim (other_invoice-cases _ _ p.invoices) [
            | inl e ↦ inl e
            | inr (inl e) ↦ inr (inl e)
            | inr (inr e) ↦ inr (inr (invoice_of e))
          ];
          documents = elim p.documents [
            | inl e ↦ inl ((is_empty_iff (file_ids s.document)).0 e)
            | inr (inl e) ↦ inr (inl ((is_empty_iff (file_ids c.document)).0 e))
            | inr (inr e) ↦ inr (inr (file_of_shares s c e))
          ];
          common = elim p.common [
            | inl e ↦ inl (invoice_of e)
            | inr e ↦ inr (file_of_shares s c e)
          ];
        }

    from : IsSource s c → is_match s c ≡ true
    from p = Parts-is_match s c (record {
      paid = (not_paid_by_iff c.paid_at s.created_at).1 p.paid;
      created = p.created;
      invoices = other_invoice-of_cases _ _ (elim p.invoices [
        | inl e ↦ inl e
        | inr (inl e) ↦ inr (inl e)
        | inr (inr e) ↦ inr (inr (of_invoice e))
      ]);
      documents = elim p.documents [
        | inl e ↦ inl ((is_empty_iff (file_ids s.document)).1 e)
        | inr (inl e) ↦ inr (inl ((is_empty_iff (file_ids c.document)).1 e))
        | inr (inr e) ↦ inr (inr (shares_of_file s c e))
      ];
      common = elim p.common [ inl e ↦ inl (of_invoice e) | inr e ↦ inr (shares_of_file s c e) ];
    })
