-- ===== src/Tests/Amqp.antt =====
-- The AMQP consumer and its nonce store on concrete deliveries.
use axiam_python_sdk.Base.{some, ℕ, ◌≡◌, refl, none, List, [], ◌∷◌, arith}
use axiam_python_sdk.Json.{Fields}
use axiam_python_sdk.Amqp.Replay.{
  new_store, validate_freshness, check_and_record, check_key_version, check_issued_at, nonce_text,
  parse_rfc3339,
}
use axiam_python_sdk.Amqp.Replay.Refinement.{answers, expected, answers-expected}
use axiam_python_sdk.Amqp.Hmac.{verify_hmac, compare_digest}
use axiam_python_sdk.Amqp.Consumer.{Delivery, returned, on_message, parse_event, serve, consume}
use axiam_python_sdk.Amqp.Consumer.Signed.{Signed}
use axiam_python_sdk.Amqp.Consumer.Timely.{Timely}
use axiam_python_sdk.Amqp.Consumer.Matrix.{Ended, dispatched_iff, settled_iff}
use axiam_python_sdk.Amqp.Consumer.Replays.{dispatched_once}
use axiam_python_sdk.Tests.Setting.{runtime, amqp_event, amqp_body}

abbrev first : Delivery
first = record { body = amqp_body; wall = 1010; mono = 10; handler = returned }

-- the same body, redelivered
abbrev second : Delivery
second = record { body = amqp_body; wall = 1015; mono = 15; handler = returned }

-- one that is not signed
abbrev forged : Delivery
forged = record { body = 8 ∷ []; wall = 1012; mono = 12; handler = returned }

abbrev key : List ℕ
key = 1 ∷ []

dispatched_iff_example :
    Signed runtime key amqp_body amqp_event × Timely runtime 300 1010 10 [] amqp_event
unfolding on_message verify_hmac validate_freshness axiam_python_sdk.Json.get compare_digest
    parse_event check_key_version axiam_python_sdk.Json.pop check_issued_at parse_rfc3339 nonce_text
    check_and_record axiam_python_sdk.Dict.lookup axiam_python_sdk.Expiring.forget
    axiam_python_sdk.Dict.keep
dispatched_iff_example = (dispatched_iff runtime key 300 first (new_store 600) amqp_event).0 refl

settled_iff_example : Ended runtime key 300 first (new_store 600) returned
unfolding on_message verify_hmac validate_freshness axiam_python_sdk.Json.get compare_digest
    parse_event check_key_version axiam_python_sdk.Json.pop check_issued_at parse_rfc3339 nonce_text
    check_and_record axiam_python_sdk.Dict.lookup axiam_python_sdk.Expiring.forget
    axiam_python_sdk.Dict.keep
settled_iff_example = (settled_iff runtime key 300 first (new_store 600)).0.0 refl

dispatched_once_example :
    (on_message runtime key 300 second (
      serve runtime key 300
        (on_message runtime key 300 first (consume runtime key 300 [])).0
        (forged ∷ []))).1.dispatched
    ≡ none
unfolding on_message verify_hmac validate_freshness consume serve axiam_python_sdk.Json.get
    compare_digest parse_event check_key_version axiam_python_sdk.Json.pop check_issued_at
    parse_rfc3339 nonce_text check_and_record axiam_python_sdk.Dict.lookup
    axiam_python_sdk.Expiring.forget axiam_python_sdk.Dict.keep
dispatched_once_example =
    dispatched_once runtime key 300 [] (forged ∷ []) first second amqp_event
      (omega arith, omega arith) refl refl (λ e. omega arith) refl

answers-expected_example :
    answers (new_store 60) (("a", 1) ∷ ("a", 50) ∷ ("a", 61) ∷ [])
    ≡ expected 60 [] (("a", 1) ∷ ("a", 50) ∷ ("a", 61) ∷ [])
answers-expected_example =
    answers-expected 60 (("a", 1) ∷ ("a", 50) ∷ ("a", 61) ∷ [])
      (omega arith, (omega arith, (omega arith, tt)))

-- a message stamped the whole skew ahead, and again when it is the whole skew old
abbrev ahead : Delivery
ahead = record { body = amqp_body; wall = 700; mono = 10; handler = returned }

abbrev behind : Delivery
behind = record { body = amqp_body; wall = 1300; mono = 610; handler = returned }

dispatched_at_both_ends :
    ((on_message runtime key 300 ahead (consume runtime key 300 [])).1.dispatched ≡ some amqp_event)
    × ((on_message runtime key 300 behind
          (on_message runtime key 300 ahead (consume runtime key 300 [])).0).1.dispatched
        ≡ some amqp_event)
unfolding on_message verify_hmac validate_freshness consume serve axiam_python_sdk.Json.get
    compare_digest parse_event check_key_version axiam_python_sdk.Json.pop check_issued_at
    parse_rfc3339 nonce_text check_and_record axiam_python_sdk.Dict.lookup
    axiam_python_sdk.Expiring.forget axiam_python_sdk.Dict.keep axiam_python_sdk.Dict.put
dispatched_at_both_ends = (refl, refl)
