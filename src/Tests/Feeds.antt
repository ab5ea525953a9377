-- ===== src/Tests/Feeds.antt =====
-- The webhook check, the login states and the revocation feed on concrete inputs.
use axiam_python_sdk.Base.{ℕ, ◌+◌, ◌*◌, ◌≤◌, ◌≡◌, refl, true, none, some, [], ◌∷◌, arith, String}
use axiam_python_sdk.Base.Int.{pos}
use axiam_python_sdk.Json.{str, arr, obj, nil, cons, end, field}
use axiam_python_sdk.Webhook.{WebhookEvent, Delivery, verify_webhook}
use axiam_python_sdk.Webhook.Sound.{Accepted, verify_webhook_iff}
use axiam_python_sdk.OidcState.{OidcStateEntry, new_store, save, consume}
use axiam_python_sdk.OidcState.SingleUse.{
  saved, counted, consumed, run, consume-save, consume-consume,
}
use axiam_python_sdk.RevocationFeed.{RevocationFeed, new_feed, is_revoked}
use axiam_python_sdk.RevocationFeed.Sticky.{Ask, after, is_revoked-after}
use axiam_python_sdk.RevocationFeed.Rate.{polls, polls_bound}
use axiam_python_sdk.Tests.Setting.{runtime}

-- the second candidate is the MAC of "5." and the body
abbrev delivery : Delivery
delivery = record {
  signature_header = "t=5,v1=zz,v1=\u{1}5.A";
  body = b'A' ∷ [];
  tolerance = 300_000_000;
  now = 100_000_000;
  timestamp_header = some " 5 ";
  event_type = some "user.created";
  delivery_id = none;
}

abbrev received : WebhookEvent
received = record {
  event_type = some "user.created";
  delivery_id = none;
  body = b'A' ∷ [];
  timestamp = pos 5;
}

verify_webhook_iff_example : Accepted runtime (1 ∷ []) delivery received
unfolding verify_webhook axiam_python_sdk.Webhook.parse_signature_header axiam_python_sdk.Text.split
    axiam_python_sdk.Text.partition axiam_python_sdk.Text.strip axiam_python_sdk.Webhook.note_pair
    axiam_python_sdk.Webhook.check_timestamp_header axiam_python_sdk.Webhook.matches
    axiam_python_sdk.Amqp.Hmac.mac_matches axiam_python_sdk.Amqp.Hmac.compare_digest
    axiam_python_sdk.Webhook.signed_payload
verify_webhook_iff_example = (verify_webhook_iff runtime (1 ∷ []) delivery received).0 refl

abbrev login : String → OidcStateEntry
login state = record {
  state = state;
  nonce = "n";
  code_verifier = "v";
  redirect_uri = "u";
  return_to = none;
}

consume-save_example :
    (consume 99 "s" (
      run
        (counted 20 ∷ saved 30 31 (login "other") ∷ [])
        (save 9 10 (login "s") (run [] (new_store 90))))).1
    ≡ some (login "s")
consume-save_example =
    consume-save 90 [] (counted 20 ∷ saved 30 31 (login "other") ∷ []) 9 10 99 (login "s")
      (omega arith, ((refl, omega arith), tt))

consume-consume_example :
    (consume 40 "s" (
      run
        (counted 60 ∷ consumed 16 "s" ∷ saved 17 17 (login "r") ∷ [])
        (consume 15 "s" (run (saved 9 10 (login "s") ∷ []) (new_store 90))).0)).1
    ≡ none
consume-consume_example =
    consume-consume 90 (saved 9 10 (login "s") ∷ [])
      (counted 60 ∷ consumed 16 "s" ∷ saved 17 17 (login "r") ∷ []) 15 40 "s" (tt, (tt, (refl, tt)))

abbrev failing : ℕ → Ask
failing now = record {
  now = now;
  done = now + 1;
  response = some (record { status = 503; body = none });
  sid = "s1";
}

abbrev known : RevocationFeed
known = record { poll_interval = 15_000_000; entries = some ("s1" ∷ []); last_attempt = some 0 }

is_revoked-after_example :
    (is_revoked
      (λ sid. sid)
      60_000_000
      60_000_001
      (failing 60_000_000).response
      "s1"
      (after (λ sid. sid) (failing 20_000_000 ∷ failing 40_000_000 ∷ []) known)).1
    ≡ true
unfolding axiam_python_sdk.RevocationFeed.fetch_once
    axiam_python_sdk.RevocationFeed.revocation_entry_for
is_revoked-after_example =
    is_revoked-after (λ sid. sid) (failing 20_000_000 ∷ failing 40_000_000 ∷ [])
      (failing 60_000_000) known (refl, (refl, tt)) refl

polls_bound_example :
    polls (λ sid. sid) (failing 1 ∷ failing 5 ∷ failing 9 ∷ []) (new_feed 0) * 15_000_000
    ≤ 10 + 15_000_000
polls_bound_example =
    polls_bound (λ sid. sid) 0 10 (failing 1 ∷ failing 5 ∷ failing 9 ∷ [])
      (
        omega arith,
        omega arith,
        (omega arith, omega arith, (omega arith, omega arith, omega arith)),
      )

abbrev answering : Ask
answering = record {
  now = 60_000_000;
  done = 60_000_001;
  response = some (record {
    status = 200;
    body =
        some (obj (field "alg" (str "SHA-256") (field "revoked" (arr (cons (str "s2") nil)) end)));
  });
  sid = "s2";
}
