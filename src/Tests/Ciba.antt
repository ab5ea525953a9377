-- ===== src/Tests/Ciba.antt =====
-- The polling loop and the check of a ping on concrete inputs.
use axiam_python_sdk.Base.{
  ℕ, zero, suc, ◌+◌, ◌*◌, ◌≤◌, ◌<◌, String, false, ◌≡◌, refl, Option, none, some, List, [], ◌∷◌,
  ◌⊎◌, inl, inr, arith,
}
use axiam_python_sdk.Json.{Value, str, int, obj, field, end}
use axiam_python_sdk.Ciba.{
  notification_token, PollError, protocol, network, open_code, Initiated, World, Turn, returned,
  raised, local_expiry, typed_poll_error, ciba_await, Asked, ping_mode, initiate_members,
  handle_ping, first_interval, deadline_of,
}
use axiam_python_sdk.Ciba.Schedule.{Follows, ciba_await-Follows}
use axiam_python_sdk.Ciba.Patience.{slow_downs, last_asked, ciba_await_waits}
use axiam_python_sdk.Ciba.Ping.{Bears, handle_ping_iff}
use axiam_python_sdk.Runtime.{Runtime}
use axiam_python_sdk.Tests.Setting.{runtime}

abbrev initiated : Initiated
initiated = record { expires_in = 60; interval = 5; received_at = 0 }

abbrev says : String → PollError
says code = typed_poll_error code none

-- the server asks to slow down, then fails for a while, and then gives the tokens
abbrev answers : ℕ → String ⊎ PollError
answers zero = inr (record { kind = protocol open_code "slow_down"; retry_after = none })
answers (suc zero) = inr (record { kind = network false; retry_after = some 12000 })
answers (suc (suc n)) = inl "tokens"

abbrev world : World String
world = record { overslept = λ n. 1; spent = λ n. 20; answer = answers }

abbrev polled : ℕ → ℕ → ℕ → Turn String
polled n wait due = record { wait = wait; due = due; answer = answers n }

ciba_await-Follows_example :
    Follows (ciba_await world initiated 0 60).0 (ciba_await world initiated 0 60).1
ciba_await-Follows_example = ciba_await-Follows world initiated 0 60 (omega arith) (omega arith)

awaited :
    ciba_await world initiated 0 60
    ≡ (returned "tokens", polled 0 5000 5000 ∷ polled 1 10000 15021 ∷ polled 2 12000 27042 ∷ [])
unfolding ciba_await
awaited = refl

-- a request that nobody decides
expired :
    (ciba_await
      (record world { answer = λ n. inr (says "authorization_pending") })
      initiated
      0
      60).0
    ≡ raised local_expiry
unfolding ciba_await typed_poll_error
expired = refl

ciba_await_waits_example :
    (first_interval initiated + 5000 * slow_downs (polled 0 5000 5000 ∷ polled 1 10000 15021 ∷ [])
      ≤ 12000)
    × (last_asked 0 (polled 0 5000 5000 ∷ polled 1 10000 15021 ∷ []) ≤ 12000)
    × (27042 < deadline_of initiated)
unfolding ciba_await
ciba_await_waits_example =
    ciba_await_waits world initiated 0 60 (polled 0 5000 5000 ∷ polled 1 10000 15021 ∷ [])
      (polled 2 12000 27042) [] refl

abbrev pinged : Runtime
pinged = record runtime { loads = λ body. some (obj (field "auth_req_id" (str "q") end)) }

abbrev headers : List (String × String)
headers = ("Host", "h") ∷ ("AUTHORIZATION", "bearer s") ∷ []

borne_headers : Bears pinged headers "s"
unfolding axiam_python_sdk.Text.lower_equals axiam_python_sdk.Text.partition
borne_headers = record {
  value = "bearer s";
  scheme = "bearer";
  token = "s";
  alone = refl;
  parted = refl;
  bearer = refl;
  held = refl;
  set = refl;
  same = refl;
}

handle_ping_iff_example : handle_ping pinged headers [] "s" ≡ inl "q"
unfolding axiam_python_sdk.Json.get
handle_ping_iff_example = (handle_ping_iff pinged "s" headers [] "q").1 (
  borne_headers,
  record {
    members = field "auth_req_id" (str "q") end;
    loaded = refl;
    named = refl;
    filled = refl;
  },
)

abbrev asked : Option String → Asked
asked notification = record {
  scope = "openid";
  login_hint = some "u";
  id_token_hint = none;
  binding_message = none;
  requested_expiry = none;
  acr_values = none;
  resource = none;
  delivery = ping_mode;
  notification_token = notification;
}

members :
    initiate_members (asked (some "n"))
    ≡ inl (
        field "scope"
          (str "openid")
          (field "login_hint" (str "u") (field "client_notification_token" (str "n") end)))
unfolding initiate_members
members = refl

ping_needs_token : initiate_members (asked (some "")) ≡ inr notification_token
unfolding initiate_members
ping_needs_token = refl
