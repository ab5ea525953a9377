-- ===== src/Amqp/Consumer/Replays.antt =====
-- No body reaches the handler of src/axiam_sdk/amqp/_consumer.py twice.
use axiam_python_sdk.Base.{
  ℕ, ◌+◌, ◌*◌, ◌≤◌, ◌<◌, String, ◌≡◌, ◌≢◌, inl, inr, refl, ◌∙◌, ltb→lt, ltb_ge, subst, true, Option,
  none, some, List, [], ◌∷◌, arith, Bool-cases, Option-cases, ltb,
}
use axiam_python_sdk.Json.{Value, Fields, get}
use axiam_python_sdk.Runtime.{Runtime, Bytes}
use axiam_python_sdk.Dict.{IsUnique}
use axiam_python_sdk.Amqp.Replay.{
  NonceStore, new_store, Reason, check_and_record, check_nonce, nonce_text, check_issued_at,
  check_key_version, validate_freshness, check,
}
use axiam_python_sdk.Amqp.Replay.Refinement.{ttl-check_and_record}
use axiam_python_sdk.Amqp.Replay.Window.{
  Remembers, check_and_record-IsUnique, check_and_record-Remembers, check_and_record_refuses,
  check_and_record_accepts,
}
use axiam_python_sdk.Amqp.Hmac.{verify_hmac}
use axiam_python_sdk.Amqp.Consumer.{Delivery, on_message, parse_event, serve, consume}
use axiam_python_sdk.Amqp.Consumer.Matrix.{Passes, dispatched-Passes}

-- A property that every check of a nonce at `mono` keeps.
abbrev Kept : (NonceStore → Type 0) → ℕ → NonceStore → Type 0
Kept P mono s = (nonce : String) → P (check_and_record nonce mono s).0

check_nonce_keeps :
    (P : NonceStore → Type 0) (o : Option String) (mono : ℕ) (s : NonceStore)
    → P s
    → Kept P mono s
    → P (check_nonce o mono s).0
unfolding check_nonce
check_nonce_keeps P none mono s h k = h
check_nonce_keeps P (some n) mono s h k = k n

check_keeps :
    (P : NonceStore → Type 0) (o : Option Reason) (s : NonceStore)
    (later : NonceStore × Option Reason)
    → P s
    → P later.0
    → P (check o s later).0
check_keeps P none s later h k = k
check_keeps P (some reason) s later h k = h

module _ (rt : Runtime) (P : NonceStore → Type 0) where
  validate_freshness_keeps :
      (event : Fields) (skew wall mono : ℕ) (s : NonceStore)
      → P s
      → Kept P mono s
      → P (validate_freshness rt event skew wall mono s).0
  unfolding validate_freshness
  validate_freshness_keeps event skew wall mono s h k =
      check_keeps P (check_key_version (get "key_version" event)) s _ h (
        check_keeps P (check_issued_at rt (get "issued_at" event) skew wall) s _ h
          (check_nonce_keeps P (nonce_text (get "nonce" event)) mono s h k))

  -- A property of the store that every check of a nonce keeps is kept by a delivery.
  pub on_message_keeps :
      (key : Bytes) (skew : ℕ) (d : Delivery) (s : NonceStore)
      → P s
      → Kept P d.mono s
      → P (on_message rt key skew d s).0
  unfolding on_message
  on_message_keeps key skew d s h k = elim (Bool-cases (verify_hmac rt key d.body)) [
    | inr e ↦ rw e h
    | inl e ↦ rw e (elim (Option-cases (parse_event (rt.loads d.body))) [
      | inl e' ↦ rw e' h
      | inr (event, e') ↦ rw e' (validate_freshness_keeps event skew d.wall d.mono s h k)
    ])
  ]

-- The monotonic clock does not go back between deliveries.
abbrev pub InOrder : ℕ → List Delivery → ℕ → Type 0
InOrder start [] stop = start ≤ stop
InOrder start (d ∷ ds) stop = (start ≤ d.mono) × InOrder d.mono ds stop

InOrder-le : (start : ℕ) (ds : List Delivery) (stop : ℕ) → InOrder start ds stop → start ≤ stop
InOrder-le start [] stop o = o
InOrder-le start (d ∷ ds) stop (le, o) = omega (arith, InOrder-le d.mono ds stop o)

-- A store of the consumer: its keys are unique, and nonces live twice the skew.
record IsStore (skew : ℕ) (s : NonceStore) : Type 0 where
  unique : IsUnique s.seen
  lifetime : s.ttl_seconds ≡ 2 * skew

module _ (rt : Runtime) (key : Bytes) (skew : ℕ) where
  on_message-IsStore :
      (d : Delivery) (s : NonceStore) → IsStore skew s → IsStore skew (on_message rt key skew d s).0
  on_message-IsStore d s w = on_message_keeps rt (IsStore skew) key skew d s w λ nonce. record {
    unique = check_and_record-IsUnique nonce d.mono s w.unique;
    lifetime = ttl-check_and_record s nonce d.mono ∙ w.lifetime;
  }

  serve-IsStore :
      (ds : List Delivery) (s : NonceStore) → IsStore skew s → IsStore skew (serve rt key skew s ds)
  unfolding serve
  serve-IsStore [] s w = w
  serve-IsStore (d ∷ ds) s w = serve-IsStore ds _ (on_message-IsStore d s w)

  consume-IsStore : (ds : List Delivery) → IsStore skew (consume rt key skew ds)
  unfolding consume
  consume-IsStore ds =
      serve-IsStore ds (new_store (2 * skew)) (record { unique = tt; lifetime = refl })

  serve-Remembers :
      (nonce : String) (expiry start stop : ℕ) (ds : List Delivery) (s : NonceStore)
      → InOrder start ds stop
      → stop < expiry
      → Remembers nonce expiry s
      → Remembers nonce expiry (serve rt key skew s ds)
  unfolding serve
  serve-Remembers nonce expiry start stop [] s o lt r = r
  serve-Remembers nonce expiry start stop (d ∷ ds) s (le, o) lt r =
      serve-Remembers nonce expiry d.mono stop ds _ o lt (
        on_message_keeps rt (Remembers nonce expiry) key skew d s r λ other.
          check_and_record-Remembers nonce other expiry d.mono s
            (omega (arith, InOrder-le d.mono ds stop o)) r)

  -- What an accepted event went through.
  record Accepted (event : Fields) (wall mono : ℕ) (s : NonceStore) (nonce : String) : Type 0 where
    moment : check_issued_at rt (get "issued_at" event) skew wall ≡ none
    named : nonce_text (get "nonce" event) ≡ some nonce
    new : (check_and_record nonce mono s).1 ≡ true

  accepted :
      (event : Fields) (wall mono : ℕ) (s : NonceStore)
      → (validate_freshness rt event skew wall mono s).1 ≡ none
      → (nonce : String) × Accepted event wall mono s nonce
        × ((validate_freshness rt event skew wall mono s).0 ≡ (check_and_record nonce mono s).0)
  unfolding validate_freshness
  accepted event wall mono s h = elim (Option-cases (nonce_text (get "nonce" event))) [
    | inl e ↦ absurd (ground (arith, e))
    | inr (nonce, e) ↦ (
      nonce,
      record { moment = ground (arith, e); named = e; new = ground (arith, e) },
      ground (arith, e),
    )
  ]

  -- A moment that both clock readings accept is at most twice the skew older at the second.
  same_moment :
      (o : Option Value) (wall later : ℕ)
      → check_issued_at rt o skew wall ≡ none
      → check_issued_at rt o skew later ≡ none
      → later ≤ wall + 2 * skew
  unfolding check_issued_at
  same_moment o wall later h k = ground arith

module _ (rt : Runtime) (key : Bytes) (skew : ℕ) where
  store_of_dispatch :
      (d : Delivery) (s : NonceStore) (event : Fields)
      → Passes rt key skew d s event
      → (on_message rt key skew d s).0 ≡ (validate_freshness rt event skew d.wall d.mono s).0
  unfolding on_message
  store_of_dispatch d s event p = ground arith

  -- The store after a dispatch remembers the nonce of the event for twice the skew.
  dispatched-Remembers :
      (d : Delivery) (s : NonceStore) (event : Fields)
      → IsStore skew s
      → Passes rt key skew d s event
      → (nonce : String) × Accepted rt key skew event d.wall d.mono s nonce
        × Remembers nonce (d.mono + 2 * skew) (on_message rt key skew d s).0
  dispatched-Remembers d s event w p =
      let (nonce, a, e) = accepted rt key skew event d.wall d.mono s p.fresh in
      let r = check_and_record_accepts nonce d.mono s w.unique a.new in
      (nonce, a, rw (store_of_dispatch d s event p, e, ← w.lifetime) r)

  -- What is accepted while its nonce is remembered, or after its moment has passed, is impossible.
  never_again :
      (first second : Delivery) (s t : NonceStore) (event : Fields) (nonce : String)
      → second.wall + first.mono ≡ first.wall + second.mono
      → second.mono ≢ first.mono + 2 * skew
      → Accepted rt key skew event first.wall first.mono s nonce
      → (second.mono < first.mono + 2 * skew → Remembers nonce (first.mono + 2 * skew) t)
      → Passes rt key skew second t event
      → ⊥
  never_again first second s t event nonce clocks apart a r p =
      let (nonce', a', _) = accepted rt key skew event second.wall second.mono t p.fresh in
      elim (Bool-cases (ltb second.mono (first.mono + 2 * skew))) [
        | inl soon ↦
            let lt = ltb→lt second.mono (first.mono + 2 * skew) soon in
            cc (
              check_and_record_refuses nonce (first.mono + 2 * skew) second.mono t lt (r lt),
              a'.new,
              a.named,
              a'.named,
            )
        | inr late ↦
            let moments =
              same_moment rt key skew (get "issued_at" event) first.wall second.wall a.moment
                a'.moment in
            absurd (omega (arith, moments, ltb_ge second.mono (first.mono + 2 * skew) late))
      ]

-- A body that was dispatched is never dispatched again by the same consumer, whatever it handled in
-- between, unless the two times of processing are exactly twice the skew apart. Conditions: the
-- monotonic clock does not go back, and the two clocks advance by the same amount.
pub dispatched_once :
    (rt : Runtime) (key : Bytes) (skew : ℕ) (before between : List Delivery)
    (first second : Delivery) (event : Fields)
    → InOrder first.mono between second.mono
    → second.wall + first.mono ≡ first.wall + second.mono
    → second.body ≡ first.body
    → second.mono ≢ first.mono + 2 * skew
    → (on_message rt key skew first (consume rt key skew before)).1.dispatched ≡ some event
    → (on_message rt key skew second (
        serve rt key skew
          (on_message rt key skew first (consume rt key skew before)).0
          between)).1.dispatched
      ≡ none
dispatched_once rt key skew before between first second event o clocks again apart h =
    let s = consume rt key skew before in
    let s' = (on_message rt key skew first s).0 in
    let w = consume-IsStore rt key skew before in
    let p = dispatched-Passes rt key skew first s event h in
    let (nonce, a, r) = dispatched-Remembers rt key skew first s event w p in
    let t = serve rt key skew s' between in
    elim (Option-cases (on_message rt key skew second t).1.dispatched) [
      | inl never ↦ never
      | inr (event', h') ↦
          let p' = dispatched-Passes rt key skew second t event' h' in
          let e : event' ≡ event = cc (p.parsed, p'.parsed, again) in
          absurd (
            never_again rt key skew first second s t event nonce clocks apart a
              (λ lt. serve-Remembers rt key skew nonce _ first.mono second.mono between s' o lt r)
              (subst (Passes rt key skew second t) e p'))
    ]
