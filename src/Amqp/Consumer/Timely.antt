-- ===== src/Amqp/Consumer/Timely.antt =====
-- The replay protection of src/axiam_sdk/amqp/_replay.py, said of a message's members and of the
-- nonces seen.
use axiam_python_sdk.Base.{
  ℕ, ◌+◌, ◌≤◌, String, ◌==◌, ◌≡◌, refl, ap, ◌∙◌, true, false, Option, none, some, [], ◌∷◌, arith,
  All,
}
use axiam_python_sdk.Base.Int.{pos, negsuc}
use axiam_python_sdk.Json.{Value, str, int, Fields, get}
use axiam_python_sdk.Runtime.{Runtime}
use axiam_python_sdk.Text.{is_blank}
use axiam_python_sdk.Dict.{Dict, lookup, keep}
use axiam_python_sdk.Expiring.{forget}
use axiam_python_sdk.Amqp.Replay.{
  NonceStore, Reason, check_and_record, check_key_version, nonce_text, check_nonce, check,
  parse_rfc3339, check_moment, check_issued_at, validate_freshness,
}

-- No expiry of the nonce is later than now.
abbrev pub Unseen : String → ℕ → Dict ℕ → Type 0
Unseen nonce now d = All (λ entry. (entry.0 == nonce) ≡ true → entry.1 ≤ now) d

forget-Unseen :
    (nonce : String) (now : ℕ) (d : Dict ℕ)
    → lookup nonce (forget now d) ≡ none
    → Unseen nonce now d
unfolding forget keep lookup
forget-Unseen nonce now [] h = tt
forget-Unseen nonce now ((j, expiry) ∷ d) h =
    (λ same. ground (arith, h, same), forget-Unseen nonce now d (ground (arith, h)))

Unseen-forget :
    (nonce : String) (now : ℕ) (d : Dict ℕ)
    → Unseen nonce now d
    → lookup nonce (forget now d) ≡ none
unfolding forget keep lookup
Unseen-forget nonce now [] h = refl
Unseen-forget nonce now ((j, expiry) ∷ d) (old, rest) =
    let gone = Unseen-forget nonce now d rest in ground (arith, gone, old)

-- The version, the moment and the nonce of an event that may be dispatched.
pub record Timely (rt : Runtime) (skew wall mono : ℕ) (seen : Dict ℕ) (event : Fields)
    : Type 0 where
  pub version : ℕ
  pub versioned : get "key_version" event ≡ some (int (pos version))
  pub supported : 2 ≤ version
  pub stamp : String
  pub stamped : get "issued_at" event ≡ some (str stamp)
  pub moment : ℕ
  pub dated : parse_rfc3339 rt stamp ≡ some moment
  pub not_late : wall ≤ moment + skew
  pub not_early : moment ≤ wall + skew
  pub nonce : String
  pub named : get "nonce" event ≡ some (str nonce)
  pub filled : is_blank nonce ≡ false
  pub unseen : Unseen nonce mono seen

check_passes :
    (o : Option Reason) (s : NonceStore) (later : NonceStore × Option Reason)
    → (check o s later).1 ≡ none
    → (o ≡ none) × (later.1 ≡ none)
check_passes none s later h = (refl, h)
check_passes (some reason) s later h = absurd (ground arith)

version_of :
    (o : Option Value)
    → check_key_version o ≡ none
    → (version : ℕ) × (o ≡ some (int (pos version))) × (2 ≤ version)
unfolding check_key_version
version_of none h = absurd (ground arith)
version_of (some (int (pos version))) h = (version, refl, ground arith)
version_of (some (int (negsuc version))) h = absurd (ground arith)
version_of (some v) h = absurd (ground arith)

nonce_of :
    (o : Option Value) (mono : ℕ) (s : NonceStore)
    → (check_nonce (nonce_text o) mono s).1 ≡ none
    → (nonce : String) × (o ≡ some (str nonce))
      × (is_blank nonce ≡ false)
      × (lookup nonce (forget mono s.seen) ≡ none)
unfolding nonce_text check_nonce check_and_record
nonce_of none mono s h = absurd (ground arith)
nonce_of (some (str nonce)) mono s h = (nonce, refl, ground arith, ground arith)
nonce_of (some v) mono s h = absurd (ground arith)

module _ (rt : Runtime) (skew wall : ℕ) where
  near_moment :
      (o : Option ℕ)
      → check_moment rt o skew wall ≡ none
      → (moment : ℕ) × (o ≡ some moment) × (wall ≤ moment + skew) × (moment ≤ wall + skew)
  unfolding check_moment
  near_moment none h = absurd (ground arith)
  near_moment (some moment) h = (moment, refl, ground (arith, h), ground (arith, h))

  moment_of :
      (o : Option Value)
      → check_issued_at rt o skew wall ≡ none
      → (stamp : String) × (moment : ℕ) × (o ≡ some (str stamp))
        × (parse_rfc3339 rt stamp ≡ some moment)
        × (wall ≤ moment + skew)
        × (moment ≤ wall + skew)
  unfolding check_issued_at
  moment_of none h = absurd (ground arith)
  moment_of (some (str stamp)) h =
      let (moment, dated, late, early) = near_moment (parse_rfc3339 rt stamp) h in
      (stamp, moment, refl, dated, late, early)
  moment_of (some v) h = absurd (ground arith)

  module _ (mono : ℕ) (s : NonceStore) (event : Fields) where
    pub validate_freshness-Timely :
        (validate_freshness rt event skew wall mono s).1 ≡ none
        → Timely rt skew wall mono s.seen event
    unfolding validate_freshness
    validate_freshness-Timely h =
        let (versions, later) = check_passes (check_key_version (get "key_version" event)) s _ h in
        let (moments, last) =
          check_passes (check_issued_at rt (get "issued_at" event) skew wall) s _ later in
        let (version, versioned, supported) = version_of (get "key_version" event) versions in
        let (stamp, moment, stamped, dated, late, early) =
          moment_of (get "issued_at" event) moments in
        let (nonce, named, filled, new) = nonce_of (get "nonce" event) mono s last in
        record {
          version = version;
          versioned = versioned;
          supported = supported;
          stamp = stamp;
          stamped = stamped;
          moment = moment;
          dated = dated;
          not_late = late;
          not_early = early;
          nonce = nonce;
          named = named;
          filled = filled;
          unseen = forget-Unseen nonce mono s.seen new;
        }

    Timely-version :
        (t : Timely rt skew wall mono s.seen event)
        → check_key_version (get "key_version" event) ≡ none
    unfolding check_key_version
    Timely-version t = ap check_key_version t.versioned ∙ ground (arith, t.supported)

    Timely-moment :
        (t : Timely rt skew wall mono s.seen event)
        → check_issued_at rt (get "issued_at" event) skew wall ≡ none
    unfolding check_issued_at check_moment
    Timely-moment t =
        ap (λ o. check_issued_at rt o skew wall) t.stamped
        ∙ ap (λ o. check_moment rt o skew wall) t.dated
        ∙ ground (arith, t.not_late, t.not_early)

    Timely-nonce :
        (t : Timely rt skew wall mono s.seen event)
        → (check_nonce (nonce_text (get "nonce" event)) mono s).1 ≡ none
    unfolding nonce_text check_nonce check_and_record
    Timely-nonce t =
        ap (λ o. (check_nonce (nonce_text o) mono s).1) t.named
        ∙ ground (arith, t.filled, Unseen-forget t.nonce mono s.seen t.unseen)

    pub Timely-validate_freshness :
        Timely rt skew wall mono s.seen event
        → (validate_freshness rt event skew wall mono s).1 ≡ none
    unfolding validate_freshness
    Timely-validate_freshness t =
        ap
          (λ o.
            (check o s (
              check (check_issued_at rt (get "issued_at" event) skew wall) s
                (check_nonce (nonce_text (get "nonce" event)) mono s))).1)
          (Timely-version t)
        ∙ ap (λ o. (check o s (check_nonce (nonce_text (get "nonce" event)) mono s)).1)
            (Timely-moment t)
        ∙ Timely-nonce t
