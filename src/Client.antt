-- ===== src/Client.antt =====
-- The client of the amoCRM interface (`AmoClient` of apps/api/src/amo/amo-client.ts): the attempts of a
-- request and the walk over the pages of a list. The network is what it answers to an attempt with a
-- token, `now` is the clock at the end of an attempt, `rounds` the clock at the rounds of the rate limit
-- that test the token before an attempt, and `post` what amoCRM answers to a refresh. An
-- abort by the caller and a refresh that another request started are left out; the waits of the rate limit
-- stand in the child module Rate.
pub mod Attempts
pub mod Pages
pub mod Rate
mod Tests
use amocrm_analytics.Base.{
  ℕ, zero, suc, ◌+◌, ◌-◌, ◌*◌, ◌^◌, min, max, Bool, true, false, ◌&&◌, ◌||◌, not, Option, none,
  some, List, [], ◌∷◌, ◌++◌, ltb, leb, ◌==◌, if◌then◌else◌,
}

-- A text that is empty, a text of JSON, or another one.
pub data Body : Type 0 where
  empty : Body
  json : ℕ → Body
  not_json : Body

-- `server_delay` is the delay of the header `retry-after` in milliseconds, if it is one.
pub data Response : Type 0 where
  no_answer : Response
  answer : (status : ℕ) (server_delay : Option ℕ) (body : Body) → Response

pub data Result : Type 0 where
  value : (body : Option ℕ) → Result
  refused : (status : ℕ) → Result
  transient_failure refresh_failed parse_failed : Result

pub record Credentials : Type 0 where
  pub access_token : ℕ
  pub refresh_token : ℕ
  pub expires_at : ℕ

pub record Session : Type 0 where
  pub credentials : Credentials
  pub paused_until : ℕ

abbrev pub is_retried_status : ℕ → Bool
is_retried_status status = status == 429 || leb 500 status

abbrev pub is_success : ℕ → Bool
is_success status = leb 200 status && ltb status 300

abbrev or_zero : Option ℕ → ℕ
or_zero none = 0
or_zero (some n) = n

-- The wait after a refused attempt: what the server asks for, at least a power of two of seconds, and
-- at most a minute.
unfoldable pub retry_delay : (attempt : ℕ) → Option ℕ → ℕ
retry_delay attempt server_delay = min 60_000 (max (1000 * 2 ^ attempt) (or_zero server_delay))

unfoldable pub pause : (attempt now status : ℕ) → Option ℕ → Session → Session
pause attempt now status server_delay s =
    if status == 429
    then record s { paused_until = max s.paused_until (now + retry_delay attempt server_delay) }
    else s

-- What a text of an answer that is a success gives.
abbrev pub parsed : Body → Result
parsed empty = value none
parsed (json n) = value (some n)
parsed not_json = parse_failed

unfoldable pub is_fresh : (now : ℕ) → Credentials → Bool
is_fresh now c = ltb (now + 60_000) c.expires_at

-- What the server answers to a refresh: tokens and the seconds that they last, or a refusal.
pub record Tokens : Type 0 where
  pub access_token : ℕ
  pub refresh_token : ℕ
  pub expires_in : ℕ

unfoldable pub perform_token_refresh : (now : ℕ) → Option Tokens → Option Credentials
perform_token_refresh now none = none
perform_token_refresh now (some t) = some (record {
  access_token = t.access_token;
  refresh_token = t.refresh_token;
  expires_at = now + t.expires_in * 1_000;
})

unfoldable pub ensure_fresh_token :
    (now later : ℕ) → Option Tokens → Credentials → Option Credentials
ensure_fresh_token now later tokens c =
    if is_fresh now c then some c else perform_token_refresh later tokens

abbrev pub then_do : Option Credentials → (Credentials → Option Credentials) → Option Credentials
then_do none rest = none
then_do (some c) rest = rest c

-- `post` is when the answer to a refresh comes, and what it is.
module _ (post : (at : ℕ) → Credentials → ℕ × Option Tokens) where
  -- `none` if the refresh fails.
  abbrev pub refresh_at : (at : ℕ) → Credentials → Option Credentials
  refresh_at at c = perform_token_refresh (post at c).0 (post at c).1

  abbrev pub fresh_at : (at : ℕ) → Credentials → Option Credentials
  fresh_at at c = ensure_fresh_token at (post at c).0 (post at c).1 c

  -- The tests of the token in the rounds of the rate limit.
  abbrev pub test_rounds : List ℕ → Option Credentials → Option Credentials
  test_rounds [] c = c
  test_rounds (at ∷ ats) c = test_rounds ats (then_do c (fresh_at at))

  -- The token is tested at least once before an attempt; `none` if a refresh fails.
  unfoldable pub test_token : (rounds : ℕ × List ℕ) → Credentials → Option Credentials
  test_token rounds c = test_rounds rounds.1 (fresh_at rounds.0 c)

module _ (network : (attempt token : ℕ) → Response) (now : ℕ → ℕ) (rounds : ℕ → ℕ × List ℕ)
    (post : (at : ℕ) → Credentials → ℕ × Option Tokens) where
  -- The loop goes on with the token that a refresh gave, if it gave one.
  abbrev pub go_on : (Session → Session × Result) → Session → Option Credentials → Session × Result
  go_on again s none = (s, refresh_failed)
  go_on again s (some c) = again (record s { credentials = c })

  -- What an attempt does with its answer; `again` is the rest of the loop.
  abbrev pub settle :
      (attempt : ℕ) → (Session → Session × Result) → Session → Response → Session × Result
  settle attempt again s no_answer = if ltb attempt 3 then again s else (s, transient_failure)
  settle attempt again s (answer status server_delay body) =
      if status == 204
      then (s, value none)
      else if status == 401 && attempt == 0
      then go_on again s (refresh_at post (now attempt) s.credentials)
      else if is_retried_status status
      then (if attempt == 3
          then (pause attempt (now attempt) status server_delay s, transient_failure)
          else again (pause attempt (now attempt) status server_delay s))
      else if not (is_success status)
      then (s, refused status)
      else (s, parsed body)

  -- An attempt with the token that was tested.
  abbrev pub attempt_with :
      (attempt : ℕ) → (Session → Session × Result) → Session → Option Credentials → Session × Result
  attempt_with attempt again s none = (s, refresh_failed)
  attempt_with attempt again s (some c) =
      settle attempt again (record s { credentials = c }) (network attempt c.access_token)

  unfoldable pub request_loop : (left attempt : ℕ) → Session → Session × Result
  request_loop zero attempt s = (s, transient_failure)
  request_loop (suc left) attempt s =
      attempt_with attempt (request_loop left (suc attempt)) s
        (test_token post (rounds attempt) s.credentials)

  unfoldable pub request : Session → Session × Result
  request s = request_loop 4 0 s

-- One page of a list: `none` if its items are no array.
pub record Page (A : Type 0) : Type 0 where
  pub items : Option (List A)
  pub has_next : Bool

module _ {A : Type 0} (get : ℕ → Page A) where
  abbrev turn {ℓ} :
      {B : Type ℓ} → Option (List A) → Bool → (stop : B) → (List A → B) → (List A → B) → B
  turn none next stop last more = stop
  turn (some []) next stop last more = stop
  turn (some (x ∷ xs)) next stop last more = if not next then last (x ∷ xs) else more (x ∷ xs)

  -- The loop over the pages; `none` means that the fuel ran out.
  unfoldable pub paginate_loop : (fuel page : ℕ) → List A → Option (List A)
  paginate_loop zero page result = none
  paginate_loop (suc fuel) page result =
      turn (get page).items (get page).has_next (some result) (λ items. some (result ++ items))
        (λ items. paginate_loop fuel (page + 1) (result ++ items))

  unfoldable pub paginate : (fuel : ℕ) → Option (List A)
  paginate fuel = paginate_loop fuel 1 []

  -- `on_batch` takes the state of the caller, the items and the number of a page.
  unfoldable pub paginate_batch_loop {ℓ} :
      {S : Type ℓ} (on_batch : S → List A → ℕ → S) (fuel page : ℕ) → S → Option S
  paginate_batch_loop on_batch zero page s = none
  paginate_batch_loop on_batch (suc fuel) page s =
      turn (get page).items (get page).has_next (some s) (λ items. some (on_batch s items page))
        (λ items. paginate_batch_loop on_batch fuel (page + 1) (on_batch s items page))

  unfoldable pub paginate_batch {ℓ} :
      {S : Type ℓ} (on_batch : S → List A → ℕ → S) (fuel : ℕ) → S → Option S
  paginate_batch on_batch fuel s = paginate_batch_loop on_batch fuel 1 s
