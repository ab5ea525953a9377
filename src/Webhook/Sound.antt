-- ===== src/Webhook/Sound.antt =====
-- What a webhook delivery has passed that src/axiam_sdk/webhook/_verify.py accepts.
use axiam_python_sdk.Base.{
  ◌≤◌, String, ◌≡◌, refl, sym, ap, ◌∙◌, ◌↔◌, ◌⊎◌, inl, inr, Bool, true, false, Option, none, some,
  List, [], ◌∷◌, arith, leb→le, le→leb, Option-cases, Bool-cases,
}
use axiam_python_sdk.Base.Int.{ℤ, pos, negsuc, ◌==ℤ◌, dist}
use axiam_python_sdk.Text.{strip}
use axiam_python_sdk.Runtime.{Runtime, Bytes}
use axiam_python_sdk.Amqp.Hmac.Digest.{compare_digest→eq, compare_digest_refl}
use axiam_python_sdk.Amqp.Hmac.{mac_matches}
use axiam_python_sdk.Webhook.{
  Checked, passed, failed, VerifyError, WebhookEvent, Delivery, parse_signature_header,
  check_timestamp_header, matches, signed_payload, micros, verify_webhook,
}

==ℤ→eq : (a b : ℤ) → (a ==ℤ b) ≡ true → a ≡ b
==ℤ→eq (pos a) (pos b) h = ground arith
==ℤ→eq (negsuc a) (negsuc b) h = ground arith
==ℤ→eq (pos a) (negsuc b) h = ground arith
==ℤ→eq (negsuc a) (pos b) h = ground arith

==ℤ-refl : (a : ℤ) → (a ==ℤ a) ≡ true
==ℤ-refl (pos a) = ground arith
==ℤ-refl (negsuc a) = ground arith

module _ (rt : Runtime) where
  -- One of the candidates is the MAC, in hexadecimal.
  abbrev pub Signs : Bytes → List String → Type 0
  Signs mac [] = ⊥
  Signs mac (candidate ∷ candidates) = (rt.from_hex candidate ≡ some mac) ⊎ Signs mac candidates

  -- The X-Axiam-Timestamp header, where there is one, reads as the timestamp.
  abbrev pub Repeats : ℤ → Option String → Type 0
  Repeats timestamp none = Unit
  Repeats timestamp (some header) = rt.to_int (strip header) ≡ some timestamp

  mac_matches→some :
      (key payload : Bytes) (o : Option Bytes)
      → mac_matches rt key payload o ≡ true
      → o ≡ some (rt.hmac key payload)
  unfolding mac_matches
  mac_matches→some key payload none h = ground (arith, h)
  mac_matches→some key payload (some b) h = ap some (sym (compare_digest→eq _ b h))

  module _ (key payload : Bytes) where
    matches_found : (cs : List String) → matches rt key payload cs true ≡ true
    unfolding matches
    matches_found [] = refl
    matches_found (c ∷ cs) = ground (arith, matches_found cs)

    matches-Signs :
        (cs : List String) → matches rt key payload cs false ≡ true → Signs (rt.hmac key payload) cs
    unfolding matches
    matches-Signs [] h = ground (arith, h)
    matches-Signs (c ∷ cs) h = elim (Bool-cases (mac_matches rt key payload (rt.from_hex c))) [
      | inl good ↦ inl (mac_matches→some key payload (rt.from_hex c) good)
      | inr bad ↦ inr (matches-Signs cs (rw bad at h))
    ]

    mac_matches_same :
        (o : Option Bytes) → o ≡ some (rt.hmac key payload) → mac_matches rt key payload o ≡ true
    unfolding mac_matches
    mac_matches_same o e = rw e (compare_digest_refl (rt.hmac key payload))

    matches_start :
        (cs : List String) (b : Bool)
        → matches rt key payload cs false ≡ true
        → matches rt key payload cs b ≡ true
    matches_start cs true h = matches_found cs
    matches_start cs false h = h

    Signs-matches :
        (cs : List String) → Signs (rt.hmac key payload) cs → matches rt key payload cs false ≡ true
    unfolding matches
    Signs-matches [] x = absurd x
    Signs-matches (c ∷ cs) (inl here) =
        rw (mac_matches_same (rt.from_hex c) here) (matches_found cs)
    Signs-matches (c ∷ cs) (inr there) = matches_start cs _ (Signs-matches cs there)

  check-Repeats :
      (timestamp : ℤ) (h : Option String)
      → check_timestamp_header rt timestamp h ≡ passed tt
      → Repeats timestamp h
  unfolding check_timestamp_header
  check-Repeats timestamp none e = tt
  check-Repeats timestamp (some header) e = elim (Option-cases (rt.to_int (strip header))) [
    | inl bad ↦ absurd (ground (arith, bad))
    | inr (n, read) ↦ elim (Bool-cases (n ==ℤ timestamp)) [
      | inl same ↦ read ∙ ap some (==ℤ→eq n timestamp same)
      | inr other ↦ absurd (ground (arith, read, other))
    ]
  ]

  Repeats-check :
      (timestamp : ℤ) (h : Option String)
      → Repeats timestamp h
      → check_timestamp_header rt timestamp h ≡ passed tt
  unfolding check_timestamp_header
  Repeats-check timestamp none e = refl
  Repeats-check timestamp (some header) e = rw (e, ==ℤ-refl timestamp) refl

-- What an accepted delivery has passed.
pub record Accepted (rt : Runtime) (secret : Bytes) (d : Delivery) (e : WebhookEvent) : Type 0 where
  pub candidates : List String
  pub header : parse_signature_header rt d.signature_header ≡ passed (e.timestamp, candidates)
  pub repeated : Repeats rt e.timestamp d.timestamp_header
  pub signed : Signs rt (rt.hmac secret (signed_payload rt e.timestamp d.body)) candidates
  pub in_time : dist d.now (micros e.timestamp) ≤ d.tolerance
  pub type_is : e.event_type ≡ d.event_type
  pub delivery_is : e.delivery_id ≡ d.delivery_id
  pub body_is : e.body ≡ d.body

Checked-cases :
    {A : Type 0} (c : Checked A) → ((a : A) × (c ≡ passed a)) ⊎ ((e : VerifyError) × (c ≡ failed e))
Checked-cases (passed a) = inl (a, refl)
Checked-cases (failed e) = inr (e, refl)

module _ (rt : Runtime) (secret : Bytes) (d : Delivery) (e : WebhookEvent) where
  verify_webhook-Accepted : verify_webhook rt secret d ≡ passed e → Accepted rt secret d e
  unfolding verify_webhook
  verify_webhook-Accepted h = elim (Checked-cases (parse_signature_header rt d.signature_header)) [
    | inr (f, bad) ↦ absurd (ground (arith, bad))
    | inl ((timestamp, candidates), read) ↦ record {
      candidates = candidates;
      header = ground (arith, read);
      repeated = check-Repeats rt e.timestamp d.timestamp_header (ground (arith, read));
      signed =
          matches-Signs rt secret (signed_payload rt e.timestamp d.body) candidates
            (ground (arith, read));
      in_time = leb→le _ _ (ground (arith, read));
      type_is = ground (arith, read);
      delivery_is = ground (arith, read);
      body_is = ground (arith, read);
    }
  ]

  Accepted-verify_webhook : Accepted rt secret d e → verify_webhook rt secret d ≡ passed e
  unfolding verify_webhook
  Accepted-verify_webhook a = ground (
    arith,
    le→leb _ _ a.in_time,
    a.header,
    Repeats-check rt e.timestamp d.timestamp_header a.repeated,
    Signs-matches rt secret (signed_payload rt e.timestamp d.body) a.candidates a.signed,
  )

  -- A delivery is accepted, as an event, exactly when the header parses into the event's timestamp
  -- and some candidates, the X-Axiam-Timestamp header, if given, reads as the same timestamp, one of
  -- the candidates decodes to the MAC of that timestamp and the body, the clock is within the
  -- tolerance of it on either side, and the event carries the body and the two headers passed.
  pub verify_webhook_iff : (verify_webhook rt secret d ≡ passed e) ↔ Accepted rt secret d e
  verify_webhook_iff = (verify_webhook-Accepted, Accepted-verify_webhook)
