-- ===== src/Workspaces/Invites/Once.antt =====
-- An invitation is accepted once, whatever happens in between.
use amocrm_analytics.Base.{
  ℕ, ◌≡◌, refl, ◌==◌, Bool, true, false, not, Option, none, some, List, [], ◌∷◌, all, arith,
  Bool-cases, inl, inr,
}
use amocrm_analytics.Workspaces.Invites.{
  Member, WorkspaceInvite, State, Directory, find_member, find_invite, invite, AcceptResult,
  accepted, may_accept, in_department, consume, accept_found, accept_invite, accept, can_be_asked,
}
use amocrm_analytics.Workspaces.Invites.Account.{AccountInput, update_account}
use amocrm_analytics.Workspaces.Invites.Spent.{
  is_spent, is_unique, use_invites-spends, can_be_asked-spent, accept-is_spent, invite-is_spent,
  update_account-invites,
}

-- What happens to the tables. Each new token is drawn at random.
pub data Event : Type 0 where
  invites : (actor : ℕ) (is_admin : Bool) (now token id : ℕ) → Event
  accepts : Directory → (is_well_formed : Bool) (asked_at now token password : ℕ) → Event
  updates : Directory → (actor : ℕ) (is_admin : Bool) (id : ℕ) → AccountInput → Event

abbrev pub is_accepted : AcceptResult → Bool
is_accepted (accepted user_id) = true
is_accepted _ = false

-- The event does not draw the token of the hash again.
abbrev pub draws_other : (token_hash : ℕ → ℕ) (h : ℕ) → Event → Bool
draws_other token_hash h (invites actor is_admin now token id) = not (token_hash token == h)
draws_other token_hash h _ = true

false-true : ¬ (false ≡ true)
false-true e = cc

module _ (token_hash password_hash : ℕ → ℕ) where
  abbrev pub step : Event → State → State
  step (invites actor is_admin now token id) s = (invite token_hash actor is_admin now token id s).0
  step (accepts directory is_well_formed asked_at now token password) s =
      (accept token_hash password_hash directory is_well_formed asked_at now token password s).0
  step (updates directory actor is_admin id body) s =
      (update_account password_hash directory actor is_admin id body s).0

  abbrev pub run : List Event → State → State
  run [] s = s
  run (e ∷ es) s = run es (step e s)

  step-is_spent :
      (h : ℕ) (e : Event) (s : State)
      → draws_other token_hash h e ≡ true
      → is_spent h s.invites ≡ true
      → is_spent h (step e s).invites ≡ true
  step-is_spent h (invites actor is_admin now token id) s f k =
      invite-is_spent h token_hash actor is_admin now token id s (ground arith) k
  step-is_spent h (accepts directory is_well_formed asked_at now token password) s f k =
      accept-is_spent h token_hash password_hash directory is_well_formed asked_at now token
        password s k
  step-is_spent h (updates directory actor is_admin id body) s f k =
      rw (update_account-invites h password_hash directory actor is_admin id body s) k

  run-is_spent :
      (h : ℕ) (es : List Event) (s : State)
      → all (λ e. draws_other token_hash h e) es ≡ true
      → is_spent h s.invites ≡ true
      → is_spent h (run es s).invites ≡ true
  run-is_spent h [] s f k = k
  run-is_spent h (e ∷ es) s f k =
      run-is_spent h es (step e s) (ground arith) (step-is_spent h e s (ground arith) k)

  consume-spends :
      (h now ph : ℕ) (i : WorkspaceInvite) (s : State)
      → find_invite h s.invites ≡ some i
      → is_unique h s.invites ≡ true
      → is_accepted (consume now ph i s).1 ≡ true
      → is_spent h ((consume now ph i s).0).invites ≡ true
  consume-spends h now ph i s f u a =
      let used = use_invites-spends h now i s.invites f u in ground arith

  accept_found-spends :
      (h : ℕ) (directory : Directory) (now ph : ℕ) (i : WorkspaceInvite) (m : Option Member)
      (s : State)
      → find_invite h s.invites ≡ some i
      → is_unique h s.invites ≡ true
      → is_accepted (accept_found directory now ph i m s).1 ≡ true
      → is_spent h ((accept_found directory now ph i m s).0).invites ≡ true
  accept_found-spends h directory now ph i none s f u a = absurd (ground arith)
  accept_found-spends h directory now ph i (some m) s f u a =
      elim (Bool-cases (not (may_accept directory now i m))) [
        | inl y ↦ absurd (false-true (rw y at a))
        | inr n ↦ elim (Bool-cases (not (in_department directory m))) [
          | inl y ↦ absurd (false-true (rw (n, y) at a))
          | inr belongs ↦ rw (n, belongs) (consume-spends h now ph i s f u (rw (n, belongs) at a))
        ]
      ]

  accept_invite-spends :
      (h : ℕ) (directory : Directory) (now ph : ℕ) (i : Option WorkspaceInvite) (s : State)
      → find_invite h s.invites ≡ i
      → is_unique h s.invites ≡ true
      → is_accepted (accept_invite directory now ph i s).1 ≡ true
      → is_spent h ((accept_invite directory now ph i s).0).invites ≡ true
  accept_invite-spends h directory now ph none s f u a = absurd (ground arith)
  accept_invite-spends h directory now ph (some i) s f u a =
      accept_found-spends h directory now ph i (find_member i.user_id s.members) s f u a

  accept-spends :
      (directory : Directory) (is_well_formed : Bool) (asked_at now token password : ℕ) (s : State)
      → is_unique (token_hash token) s.invites ≡ true
      → is_accepted
          (accept token_hash password_hash directory is_well_formed asked_at now token password s).1
        ≡ true
      → is_spent
          (token_hash token)
          ((accept token_hash password_hash directory is_well_formed asked_at now token password
              s).0
            ).invites
        ≡ true
  unfolding accept
  accept-spends directory is_well_formed asked_at now token password s u a =
      let found = find_invite (token_hash token) s.invites in
      elim (Bool-cases (not is_well_formed)) [
        | inl y ↦ absurd (false-true (rw y at a))
        | inr n ↦ elim (Bool-cases (not (can_be_asked asked_at found))) [
          | inl y ↦ absurd (false-true (rw (n, y) at a))
          | inr pending ↦
              rw (n, pending)
                (accept_invite-spends (token_hash token) directory now (password_hash password)
                  found s refl u (rw (n, pending) at a))
        ]
      ]

  accept-refused :
      (directory : Directory) (is_well_formed : Bool) (asked_at now token password : ℕ) (s : State)
      → is_spent (token_hash token) s.invites ≡ true
      → is_accepted
          (accept token_hash password_hash directory is_well_formed asked_at now token password s).1
        ≡ false
  unfolding accept
  accept-refused directory is_well_formed asked_at now token password s spent =
      let refused = can_be_asked-spent (token_hash token) asked_at s.invites spent in ground arith

-- A token that was accepted is never accepted again, whatever is invited, accepted and changed later.
pub accept-once :
    (token_hash password_hash : ℕ → ℕ) (directory later_directory : Directory)
    (is_well_formed later_well_formed : Bool)
    (asked_at now token password later_asked_at later_now later_password : ℕ) (s : State)
    (events : List Event)
    → is_unique (token_hash token) s.invites ≡ true
    → is_accepted
        (accept token_hash password_hash directory is_well_formed asked_at now token password s).1
      ≡ true
    → all (λ e. draws_other token_hash (token_hash token) e) events ≡ true
    → is_accepted
        (accept token_hash password_hash later_directory later_well_formed later_asked_at later_now
          token later_password
          (run token_hash password_hash events
            (accept token_hash password_hash directory is_well_formed asked_at now token password
              s).0)).1
      ≡ false
accept-once token_hash password_hash directory later_directory is_well_formed later_well_formed
      asked_at now token password later_asked_at later_now later_password s events u a fresh =
    let after =
      (accept token_hash password_hash directory is_well_formed asked_at now token password s).0 in
    let spent =
      accept-spends token_hash password_hash directory is_well_formed asked_at now token password s
        u a in
    accept-refused token_hash password_hash later_directory later_well_formed later_asked_at
      later_now token later_password (run token_hash password_hash events after)
      (run-is_spent token_hash password_hash (token_hash token) events after fresh spent)
