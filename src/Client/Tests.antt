-- ===== src/Client/Tests.antt =====
-- A request whose token has run out, and a list of two pages.
use amocrm_analytics.Base.{
  ℕ, zero, suc, ◌≡◌, refl, ◌==◌, true, false, Option, none, some, List, [], ◌∷◌, if◌then◌else◌,
}
use amocrm_analytics.Client.{
  Response, no_answer, answer, empty, json, not_json, value, refresh_failed, Credentials, Session,
  retry_delay, pause, Tokens, is_fresh, perform_token_refresh, ensure_fresh_token, test_token,
  request_loop, request, Page, paginate_loop, paginate, paginate_batch_loop, paginate_batch,
}
use amocrm_analytics.Client.Attempts.{first_settled, request-first_settled}
use amocrm_analytics.Client.Pages.{Ends, last_page, full_page}

-- Token 5 is answered by 401, the second attempt by nothing, the third by a body.
abbrev net : ℕ → ℕ → Response
net zero token = answer 401 none empty
net (suc zero) token = no_answer
net (suc (suc a)) token = if token == 6 then answer 200 none (json 70) else answer 403 none not_json

abbrev clock : ℕ → ℕ
clock a = 1_000

abbrev rounds : ℕ → ℕ × List ℕ
rounds a = (900, [])

-- A refresh gives the next token for an hour.
abbrev post : (at : ℕ) → Credentials → ℕ × Option Tokens
post at c =
    (at, some (record { access_token = suc c.access_token; refresh_token = 4; expires_in = 3_600 }))

abbrev no_post : (at : ℕ) → Credentials → ℕ × Option Tokens
no_post at c = (at, none)

abbrev session : Session
session = record {
  credentials = record { access_token = 5; refresh_token = 2; expires_at = 100_000 };
  paused_until = 0;
}

-- The token of this session runs out within a minute.
abbrev late_session : Session
late_session = record {
  credentials = record { access_token = 5; refresh_token = 2; expires_at = 60_900 };
  paused_until = 0;
}

client : Unit {0}
unfolding retry_delay pause is_fresh perform_token_refresh ensure_fresh_token test_token
    request_loop request paginate_loop paginate paginate_batch_loop paginate_batch
client = tt

abbrev old_tokens : Credentials
old_tokens = record { access_token = 1; refresh_token = 2; expires_at = 100_000 }

refreshes :
    ensure_fresh_token 40_000 40_500
      (some (record { access_token = 3; refresh_token = 4; expires_in = 60 }))
      old_tokens
    ≡ some (record { access_token = 3; refresh_token = 4; expires_at = 100_500 })
unfolding ensure_fresh_token is_fresh perform_token_refresh
refreshes = refl

request_test : (request net clock rounds post session).1 ≡ value (some 70)
unfolding client
request_test = refl

-- The token is refreshed before the first attempt, and again after its 401.
late_token : (request net clock rounds post late_session).0.credentials.access_token ≡ 7
unfolding client
late_token = refl

refresh_test : (request net clock rounds no_post session).1 ≡ refresh_failed
unfolding client
refresh_test = refl

request-first_settled_example :
    (request net clock rounds post session).1
    ≡ first_settled net clock rounds post session.credentials 4 0
request-first_settled_example = request-first_settled net clock rounds post session

abbrev pages : ℕ → Page ℕ
pages (suc zero) = record { items = some (1 ∷ 2 ∷ []); has_next = true }
pages n = record { items = some (3 ∷ []); has_next = false }

abbrev listed : List ℕ
listed = 1 ∷ 2 ∷ 3 ∷ []

pages-Ends : Ends pages 1 1 listed
pages-Ends = full_page 1 (2 ∷ []) refl refl (last_page 3 [] refl refl)
