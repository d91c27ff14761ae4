-- ===== src/Workspaces/Shipments.antt =====
-- Which sale a shipment belongs to (apps/api/src/workspaces/shipment-link-policy.ts). The values of
-- custom fields are JSON; a text or a number is known by the number of its text, that of the text after
-- `trim` (0 for an empty one), its length, and whether the trimmed text is one of the placeholders. The
-- hashes of the evidence are not modelled.
pub mod Source
pub mod Unique
pub mod Links
pub mod Settled
mod Tests
use amocrm_analytics.Base.{
  ℕ, suc, Bool, true, false, ◌&&◌, ◌||◌, not, Option, none, some, List, [], ◌∷◌, ◌++◌, ltb, leb,
  ◌==◌, any, filter, length, if◌then◌else◌,
}

pub record Text : Type 0 where
  pub whole : ℕ
  pub trimmed : ℕ
  pub size : ℕ
  pub is_placeholder : Bool

-- Whether a key of an object is one of those that name a file.
pub data Key : Type 0 where
  file_key other_key : Key

mutual
  pub data Json : Type 0 where
    null_json : Json
    bool_json : Bool → Json
    number_json text_json : Text → Json
    array : Items → Json
    object : Fields → Json

  pub data Items : Type 0 where
    no_items : Items
    item : Json → Items → Items

  pub data Fields : Type 0 where
    no_fields : Fields
    field : Key → Json → Fields → Fields

abbrev identifier_of : Text → Option ℕ
identifier_of t = if not (t.trimmed == 0) && not t.is_placeholder then some t.trimmed else none

unfoldable pub identifier : Json → Option ℕ
identifier (number_json t) = identifier_of t
identifier (text_json t) = identifier_of t
identifier _ = none

abbrev pub includes : ℕ → List ℕ → Bool
includes f fs = any (λ g. g == f) fs

-- `[...new Set(list)]`
abbrev pub distinct : List ℕ → List ℕ
distinct [] = []
distinct (f ∷ fs) = f ∷ filter (λ g. not (g == f)) (distinct fs)

-- What a field of an object gives besides the files inside its value.
abbrev named_file : Key → Json → List ℕ
named_file file_key (text_json t) = if leb 16 t.size then t.whole ∷ [] else []
named_file _ _ = []

unfoldable mutual
  pub file_ids : Json → List ℕ
  file_ids (array items) = distinct (file_ids_of_items items)
  file_ids (object fields) = distinct (file_ids_of_fields fields)
  file_ids _ = []

  file_ids_of_items : Items → List ℕ
  file_ids_of_items no_items = []
  file_ids_of_items (item value rest) = file_ids value ++ file_ids_of_items rest

  file_ids_of_fields : Fields → List ℕ
  file_ids_of_fields no_fields = []
  file_ids_of_fields (field key value rest) =
      named_file key value ++ file_ids value ++ file_ids_of_fields rest

pub record Shipment : Type 0 where
  pub invoice : Json
  pub document : Json
  pub created_at : ℕ

pub record Candidate : Type 0 where
  pub id : ℕ
  pub invoice : Json
  pub document : Json
  pub created_at : ℕ
  pub paid_at : Option ℕ

pub data Choice : Type 0 where
  identified : ℕ → Choice
  ambiguous unresolved : Choice

abbrev pub not_paid_by : Option ℕ → ℕ → Bool
not_paid_by none created_at = true
not_paid_by (some t) created_at = ltb created_at t

abbrev pub same_invoice : Option ℕ → Option ℕ → Bool
same_invoice (some a) (some b) = a == b
same_invoice _ _ = false

abbrev pub other_invoice : Option ℕ → Option ℕ → Bool
other_invoice (some a) (some b) = not (a == b)
other_invoice _ _ = false

abbrev pub is_empty : List ℕ → Bool
is_empty [] = true
is_empty (_ ∷ _) = false

abbrev pub shares : List ℕ → List ℕ → Bool
shares files other = any (λ f. includes f files) other

-- The test of a candidate, on the invoice and the files of the shipment.
unfoldable pub is_match : Shipment → Candidate → Bool
is_match shipment c =
    let invoice = identifier shipment.invoice in
    let other = identifier c.invoice in
    let files = file_ids shipment.document in
    let other_files = file_ids c.document in
    if not_paid_by c.paid_at shipment.created_at || ltb shipment.created_at c.created_at
    then false
    else if other_invoice invoice other
    then false
    else if not (is_empty files) && (not (is_empty other_files) && not (shares files other_files))
    then false
    else same_invoice invoice other || shares files other_files

abbrev pub choose : List Candidate → Choice
choose [] = unresolved
choose (c ∷ []) = identified c.id
choose (c ∷ d ∷ cs) = ambiguous

abbrev pub is_given : Option ℕ → Bool
is_given none = false
is_given (some n) = true

unfoldable pub choose_shipment_source : Shipment → List Candidate → Choice
choose_shipment_source shipment candidates =
    if not (is_given (identifier shipment.invoice)) && is_empty (file_ids shipment.document)
    then unresolved
    else choose (filter (is_match shipment) candidates)
