-- ===== src/Client/Attempts.antt =====
-- Which answer a request returns.
use amocrm_analytics.Base.{
  ◌∙◌, [], ◌∷◌, leb, List, ℕ, zero, suc, ◌+◌, ◌≤◌, ◌≡◌, ◌≢◌, refl, ap, sym, Bool, true, false, ◌&&◌,
  ◌||◌, not, Option, none, some, ◌==◌, arith, if◌then◌else◌, Bool-cases, inl, inr,
}
use amocrm_analytics.Client.{
  fresh_at, is_fresh, ensure_fresh_token, test_rounds, Response, no_answer, answer, Result, value,
  refused, transient_failure, refresh_failed, Credentials, Session, is_retried_status, is_success,
  pause, parsed, Tokens, refresh_at, then_do, test_token, go_on, settle, attempt_with, request_loop,
  request,
}

-- The answers after which the request is tried again, if an attempt is left.
abbrev pub is_retried : (attempt : ℕ) → Response → Bool
is_retried attempt no_answer = true
is_retried attempt (answer status server_delay body) =
    not (status == 204) && ((status == 401 && attempt == 0) || is_retried_status status)

-- What the caller is told of an answer that is not tried again.
abbrev pub verdict : Response → Result
verdict no_answer = transient_failure
verdict (answer status server_delay body) =
    if status == 204 then value none else if is_success status then parsed body else refused status

abbrev is_401 : Response → Bool
is_401 no_answer = false
is_401 (answer status server_delay body) = status == 401

pause-credentials :
    (attempt at status : ℕ) (server_delay : Option ℕ) (s : Session)
    → (pause attempt at status server_delay s).credentials ≡ s.credentials
unfolding pause
pause-credentials attempt at status server_delay s = ground arith

module _ (network : (attempt token : ℕ) → Response) (now : ℕ → ℕ) (rounds : ℕ → ℕ × List ℕ)
    (post : (at : ℕ) → Credentials → ℕ × Option Tokens) where
  -- The token after an attempt: refreshed if it was the first one and answered by 401.
  abbrev pub renewed : (attempt : ℕ) → Response → Credentials → Option Credentials
  renewed attempt r c = if is_401 r && attempt == 0 then refresh_at post (now attempt) c else some c

  -- A token that has a minute or less left at the time of a round is refreshed.
  abbrev pub after_round : (at : ℕ) → Credentials → Option Credentials
  after_round at c = if leb c.expires_at (at + 60_000) then refresh_at post at c else some c

  abbrev pub after_rounds : List ℕ → Option Credentials → Option Credentials
  after_rounds [] c = c
  after_rounds (at ∷ ats) none = none
  after_rounds (at ∷ ats) (some c) = after_rounds ats (after_round at c)

  abbrev pub tested : (times : ℕ × List ℕ) → Credentials → Option Credentials
  tested times c = after_rounds times.1 (after_round times.0 c)

  fresh_at-after_round : (at : ℕ) (c : Credentials) → fresh_at post at c ≡ after_round at c
  unfolding ensure_fresh_token is_fresh
  fresh_at-after_round at c = ground arith

  no_token : (ats : List ℕ) → test_rounds post ats none ≡ none
  no_token [] = refl
  no_token (at ∷ ats) = no_token ats

  test_rounds-after_rounds :
      (ats : List ℕ) (c : Option Credentials) → test_rounds post ats c ≡ after_rounds ats c
  test_rounds-after_rounds [] c = refl
  test_rounds-after_rounds (at ∷ ats) none = no_token ats
  test_rounds-after_rounds (at ∷ ats) (some c) =
      ap (test_rounds post ats) (fresh_at-after_round at c)
      ∙ test_rounds-after_rounds ats (after_round at c)

  test_token-tested :
      (times : ℕ × List ℕ) (c : Credentials) → test_token post times c ≡ tested times c
  unfolding test_token
  test_token-tested times c =
      ap (test_rounds post times.1) (fresh_at-after_round times.0 c)
      ∙ test_rounds-after_rounds times.1 (after_round times.0 c)

  -- The token of each attempt: that of the one before, tested anew; `none` once a refresh has failed.
  abbrev pub token_of : Credentials → (attempt : ℕ) → Option Credentials
  token_of c zero = tested (rounds 0) c
  token_of c (suc attempt) =
      then_do
        (then_do (token_of c attempt) (λ d. renewed attempt (network attempt d.access_token) d))
        (tested (rounds (suc attempt)))

  abbrev pub told : (attempt : ℕ) → (later : Result) → Option Credentials → Result
  told attempt later none = refresh_failed
  told attempt later (some c) =
      if is_retried attempt (network attempt c.access_token)
      then later
      else verdict (network attempt c.access_token)

  -- What the attempts from `attempt` on give: the first that has no token or is not tried again decides.
  abbrev pub first_settled : Credentials → (left attempt : ℕ) → Result
  first_settled c zero attempt = transient_failure
  first_settled c (suc left) attempt =
      told attempt (first_settled c left (suc attempt)) (token_of c attempt)

  go_on-told :
      (again : Session → Session × Result) (s : Session) (later : Result) (o : Option Credentials)
      → ((t : Session) → o ≡ some t.credentials → (again t).1 ≡ later)
      → (o ≡ none → later ≡ refresh_failed)
      → (go_on network now rounds post again s o).1 ≡ later
  go_on-told again s later none next fails = sym (fails refl)
  go_on-told again s later (some c) next fails = next (record s { credentials = c }) refl

  -- An attempt gives what is told of it, if the rest of the loop gives `later`.
  settle-told :
      (attempt : ℕ) (again : Session → Session × Result) (s : Session) (later : Result)
      (r : Response)
      → attempt ≤ 3
      → (attempt ≡ 3 → later ≡ transient_failure)
      → ((t : Session) → renewed attempt r s.credentials ≡ some t.credentials → (again t).1 ≡ later)
      → (renewed attempt r s.credentials ≡ none → later ≡ refresh_failed)
      → (settle network now rounds post attempt again s r).1
        ≡ (if is_retried attempt r then later else verdict r)
  settle-told attempt again s later no_answer bound last next fails =
      let kept = next s refl in ground arith
  settle-told attempt again s later (answer status server_delay body) bound last next fails =
      elim (Bool-cases (status == 401 && attempt == 0)) [
        | inl first ↦
            let other : (status == 204) ≡ false = ground arith in
            rw (other, first)
              (go_on-told again s later (refresh_at post (now attempt) s.credentials)
                (λ t e. next t (rw first e)) (λ e. fails (rw first e)))
        | inr not_first ↦
            let kept = next (pause attempt (now attempt) status server_delay s) (
              rw not_first
                (ap some (sym (pause-credentials attempt (now attempt) status server_delay s)))) in
            ground arith
      ]

  renewed_later :
      (attempt : ℕ) (r : Response) (c : Credentials)
      → (attempt == 0) ≡ false
      → renewed attempt r c ≢ none
  renewed_later attempt r c h e = ground arith

  attempt_with-told :
      (left attempt : ℕ) (c : Credentials) (s : Session) (o : Option Credentials)
      → left + attempt ≡ 3
      → token_of c attempt ≡ o
      → ((t : Session)
          → test_token post (rounds (suc attempt)) t.credentials ≡ token_of c (suc attempt)
          → (request_loop network now rounds post left (suc attempt) t).1
            ≡ first_settled c left (suc attempt))
      → (attempt_with network now rounds post attempt
          (request_loop network now rounds post left (suc attempt))
          s
          o).1
        ≡ told attempt (first_settled c left (suc attempt)) o
  attempt_with-told left attempt c s none total same rest = refl
  attempt_with-told left attempt c s (some d) total same rest =
      settle-told attempt (request_loop network now rounds post left (suc attempt))
        (record s { credentials = d }) (first_settled c left (suc attempt))
        (network attempt d.access_token) (omega arith) (last left total) kept (failed left total)
    where
      last :
          (left : ℕ)
          → left + attempt ≡ 3
          → attempt ≡ 3
          → first_settled c left (suc attempt) ≡ transient_failure
      last zero total e = refl
      last (suc left) total e = absurd (omega arith)

      kept :
          (t : Session)
          → renewed attempt (network attempt d.access_token) d ≡ some t.credentials
          → (request_loop network now rounds post left (suc attempt) t).1
            ≡ first_settled c left (suc attempt)
      kept t e = rest t (rw (same, e) (test_token-tested (rounds (suc attempt)) t.credentials))

      failed :
          (left : ℕ)
          → left + attempt ≡ 3
          → renewed attempt (network attempt d.access_token) d ≡ none
          → first_settled c left (suc attempt) ≡ refresh_failed
      failed zero total e =
          let third : (attempt == 0) ≡ false = ground arith in
          absurd (renewed_later attempt (network attempt d.access_token) d third e)
      failed (suc left) total e = rw (same, e) refl

  request_loop-told :
      (left attempt : ℕ) (c : Credentials) (s : Session)
      → left + attempt ≡ 4
      → test_token post (rounds attempt) s.credentials ≡ token_of c attempt
      → (request_loop network now rounds post left attempt s).1 ≡ first_settled c left attempt
  unfolding request_loop
  request_loop-told zero attempt c s total same = refl
  request_loop-told (suc left) attempt c s total same = rw same (
      attempt_with-told left attempt c s (token_of c attempt) (omega arith) refl
        (λ t e. request_loop-told left (suc attempt) c t (omega arith) e))

  -- A request ends after at most four attempts. Each attempt has the token of the one before, refreshed if
  -- that was the first one and answered by 401, and tested before it: in each round of the rate
  -- limit that tests it, a token that has a minute or less left is refreshed. If a refresh fails, the request fails. Otherwise it returns what its first answer says that
  -- is neither a failure of the network, nor 429, nor 500 and above, nor 401 to the first attempt; if four
  -- answers are of these, it fails for a reason that may pass.
  pub request-first_settled :
      (s : Session) → (request network now rounds post s).1 ≡ first_settled s.credentials 4 0
  unfolding request
  request-first_settled s =
      request_loop-told 4 0 s.credentials s refl (test_token-tested (rounds 0) s.credentials)
