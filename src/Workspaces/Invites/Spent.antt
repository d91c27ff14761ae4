-- ===== src/Workspaces/Invites/Spent.antt =====
-- An invitation is accepted once.
use mathlib.Core.Path.{subst}
use amocrm_analytics.Base.{
  ℕ, ◌≡◌, refl, ◌==◌, Bool, true, false, ◌||◌, not, Option, none, some, List, [], ◌∷◌, all, arith,
  if◌then◌else◌, Bool-cases, Option-cases, inl, inr,
}
use amocrm_analytics.Workspaces.{BusinessRole, is_given}
use amocrm_analytics.Workspaces.Invites.{
  Member, WorkspaceInvite, State, Directory, find_member, find_invite, put_invite, new_invite,
  invite, invite_found, use_invite, use_invites, consume, accept_found, accept_invite, accept,
  can_be_asked,
}
use amocrm_analytics.Workspaces.Invites.Account.{
  AccountInput, update_found, update_role, update_account,
}

-- No invitation with the hash can be used.
abbrev pub is_spent : (token_hash : ℕ) → List WorkspaceInvite → Bool
is_spent h is = all (λ i. not (i.token_hash == h) || is_given i.used_at) is

-- The unique index: at most one invitation has the hash.
abbrev pub is_unique : (token_hash : ℕ) → List WorkspaceInvite → Bool
is_unique h [] = true
is_unique h (i ∷ is) =
    if i.token_hash == h then all (λ j. not (j.token_hash == h)) is else is_unique h is

use_invites-is_spent :
    (h now user : ℕ) (is : List WorkspaceInvite)
    → is_spent h is ≡ true
    → is_spent h (use_invites now user is) ≡ true
use_invites-is_spent h now user [] e = refl
use_invites-is_spent h now user (i ∷ is) e =
    let later = use_invites-is_spent h now user is (ground arith) in ground arith

put_invite-is_spent :
    (h : ℕ) (i : WorkspaceInvite) (is : List WorkspaceInvite)
    → (i.token_hash == h) ≡ false
    → is_spent h is ≡ true
    → is_spent h (put_invite i is) ≡ true
put_invite-is_spent h i [] f e = ground arith
put_invite-is_spent h i (j ∷ js) f e =
    let later = put_invite-is_spent h i js f (ground arith) in ground arith

none_with-is_spent :
    (h : ℕ) (is : List WorkspaceInvite)
    → all (λ j. not (j.token_hash == h)) is ≡ true
    → is_spent h is ≡ true
none_with-is_spent h [] e = refl
none_with-is_spent h (i ∷ is) e = let later = none_with-is_spent h is (ground arith) in ground arith

use_invite-is_given :
    (now : ℕ) (j : WorkspaceInvite) → is_given ((use_invite now j.user_id j).used_at) ≡ true
use_invite-is_given now j = elim (Option-cases j.used_at) [
  | inl n ↦ ground arith
  | inr s ↦ ground arith
]

some_value : {A : Type 0} {a b : A} → some a ≡ some b → a ≡ b
some_value e = cc

-- A use of an unused invitation spends its hash.
pub use_invites-spends :
    (h now : ℕ) (i : WorkspaceInvite) (is : List WorkspaceInvite)
    → find_invite h is ≡ some i
    → is_unique h is ≡ true
    → is_spent h (use_invites now i.user_id is) ≡ true
use_invites-spends h now i [] e u = cc
use_invites-spends h now i (j ∷ js) e u = elim (Bool-cases (j.token_hash == h)) [
  | inl y ↦
      let same : j ≡ i = some_value (rw y at e) in
      let here : is_given ((use_invite now i.user_id j).used_at) ≡ true =
        subst (λ k. is_given ((use_invite now k.user_id j).used_at) ≡ true) same
          (use_invite-is_given now j) in
      let later = use_invites-is_spent h now i.user_id js (none_with-is_spent h js (rw y at u)) in
      ground arith
  | inr n ↦ let later = use_invites-spends h now i js (rw n at e) (rw n at u) in ground arith
]

pub can_be_asked-spent :
    (h asked_at : ℕ) (is : List WorkspaceInvite)
    → is_spent h is ≡ true
    → can_be_asked asked_at (find_invite h is) ≡ false
can_be_asked-spent h asked_at [] e = refl
can_be_asked-spent h asked_at (i ∷ is) e = elim (Bool-cases (i.token_hash == h)) [
  | inl y ↦ rw y (ground arith)
  | inr n ↦ rw n (can_be_asked-spent h asked_at is (ground arith))
]

module _ (h : ℕ) where
  consume-is_spent :
      (now ph : ℕ) (i : WorkspaceInvite) (s : State)
      → is_spent h s.invites ≡ true
      → is_spent h ((consume now ph i s).0).invites ≡ true
  consume-is_spent now ph i s e =
      let used = use_invites-is_spent h now i.user_id s.invites e in ground arith

  accept_found-is_spent :
      (directory : Directory) (now ph : ℕ) (i : WorkspaceInvite) (m : Option Member) (s : State)
      → is_spent h s.invites ≡ true
      → is_spent h ((accept_found directory now ph i m s).0).invites ≡ true
  accept_found-is_spent directory now ph i none s e = e
  accept_found-is_spent directory now ph i (some m) s e =
      let used = consume-is_spent now ph i s e in ground arith

  accept_invite-is_spent :
      (directory : Directory) (now ph : ℕ) (i : Option WorkspaceInvite) (s : State)
      → is_spent h s.invites ≡ true
      → is_spent h ((accept_invite directory now ph i s).0).invites ≡ true
  accept_invite-is_spent directory now ph none s e = e
  accept_invite-is_spent directory now ph (some i) s e =
      accept_found-is_spent directory now ph i (find_member i.user_id s.members) s e

  update_found-invites :
      (password_hash : ℕ → ℕ) (actor id : ℕ) (body : AccountInput) (role : BusinessRole)
      (old : Option Member) (s : State)
      → ((update_found password_hash actor id body role old s).0).invites ≡ s.invites
  update_found-invites password_hash actor id body role none s = refl
  update_found-invites password_hash actor id body role (some old) s = ground arith

  update_role-invites :
      (password_hash : ℕ → ℕ) (directory : Directory) (actor id : ℕ) (body : AccountInput)
      (role : Option BusinessRole) (s : State)
      → ((update_role password_hash directory actor id body role s).0).invites ≡ s.invites
  update_role-invites password_hash directory actor id body none s = refl
  update_role-invites password_hash directory actor id body (some role) s =
      let found =
        update_found-invites password_hash actor id body role (find_member id s.members) s in
      ground arith

  pub update_account-invites :
      (password_hash : ℕ → ℕ) (directory : Directory) (actor : ℕ) (is_admin : Bool) (id : ℕ)
      (body : AccountInput) (s : State)
      → ((update_account password_hash directory actor is_admin id body s).0).invites ≡ s.invites
  unfolding update_account
  update_account-invites password_hash directory actor is_admin id body s =
      let changed =
        update_role-invites password_hash directory actor id body body.business_role s in
      ground arith

  pub accept-is_spent :
      (token_hash password_hash : ℕ → ℕ) (directory : Directory) (is_well_formed : Bool)
      (asked_at now token password : ℕ) (s : State)
      → is_spent h s.invites ≡ true
      → is_spent h
          ((accept token_hash password_hash directory is_well_formed asked_at now token password
              s).0
            ).invites
        ≡ true
  unfolding accept
  accept-is_spent token_hash password_hash directory is_well_formed asked_at now token password s
        e =
      let kept =
        accept_invite-is_spent directory now (password_hash password)
          (find_invite (token_hash token) s.invites) s e in
      ground arith

  invite_found-is_spent :
      (token_hash : ℕ → ℕ) (actor now token id : ℕ) (m : Option Member) (s : State)
      → (token_hash token == h) ≡ false
      → is_spent h s.invites ≡ true
      → is_spent h ((invite_found token_hash actor now token id m s).0).invites ≡ true
  invite_found-is_spent token_hash actor now token id none s f e = e
  invite_found-is_spent token_hash actor now token id (some m) s f e =
      let kept = put_invite-is_spent h (new_invite m (token_hash token) now) s.invites f e in
      ground arith

  pub invite-is_spent :
      (token_hash : ℕ → ℕ) (actor : ℕ) (is_admin : Bool) (now token id : ℕ) (s : State)
      → (token_hash token == h) ≡ false
      → is_spent h s.invites ≡ true
      → is_spent h ((invite token_hash actor is_admin now token id s).0).invites ≡ true
  unfolding invite
  invite-is_spent token_hash actor is_admin now token id s f e =
      let kept =
        invite_found-is_spent token_hash actor now token id (find_member id s.members) s f e in
      ground arith
