-- ===== src/Amqp/Replay/Refinement.antt =====
-- The nonce store of src/axiam_sdk/amqp/_replay.py against a history that never forgets.
use axiam_python_sdk.Base.{
  ℕ, ◌+◌, ◌≤◌, String, ◌≡◌, refl, Bool, false, not, Option, none, List, [], ◌∷◌, arith, ◌∙◌,
  if◌then◌else◌, is_some, Bool-cases, inl, inr,
}
use axiam_python_sdk.Expiring.{
  History, seen_within, forget, Tracks, Tracks-empty, Tracks-forget, Tracks-put, is_some-forget,
}
use axiam_python_sdk.Amqp.Replay.{NonceStore, new_store, check_and_record}

-- The nonces that are checked, each with the time of the call.
abbrev pub Calls : Type 0
Calls = List (String × ℕ)

abbrev pub InOrder : ℕ → Calls → Type 0
InOrder start [] = Unit
InOrder start ((nonce, now) ∷ calls) = (start ≤ now) × InOrder now calls

-- The answers of one store to a row of calls.
pub answers : NonceStore → Calls → List Bool
answers s [] = []
answers s ((nonce, now) ∷ calls) =
    (check_and_record nonce now s).1 ∷ answers (check_and_record nonce now s).0 calls

-- The history after a call.
abbrev pub remember : ℕ → History → String → ℕ → History
remember ttl h nonce now = if seen_within h nonce now then h else (nonce, now + ttl) ∷ h

-- What the answers should be: a nonce is fresh unless it was accepted less than `ttl` before.
pub expected : ℕ → History → Calls → List Bool
expected ttl h [] = []
expected ttl h ((nonce, now) ∷ calls) =
    not (seen_within h nonce now) ∷ expected ttl (remember ttl h nonce now) calls

is_some-none : (o : Option ℕ) → is_some o ≡ false → o ≡ none
is_some-none o e = ground arith

module _ {start : ℕ} {h : History} (s : NonceStore) (nonce : String) (now : ℕ) where
  check_and_record-answer :
      start ≤ now
      → Tracks start s.seen h
      → (check_and_record nonce now s).1 ≡ not (seen_within h nonce now)
  unfolding check_and_record
  check_and_record-answer le w = ground (arith, is_some-forget now nonce le w)

  check_and_record-Tracks :
      start ≤ now
      → Tracks start s.seen h
      → Tracks now (check_and_record nonce now s).0.seen (remember s.ttl_seconds h nonce now)
  unfolding check_and_record
  check_and_record-Tracks le w =
      let e = is_some-forget now nonce le w in
      elim (Bool-cases (seen_within h nonce now)) [
        | inl seen ↦ rw (e, seen) (Tracks-forget now le w)
        | inr fresh ↦
            rw (e, fresh)
              (Tracks-put now _ nonce (forget now s.seen) h (is_some-none _ (e ∙ fresh))
                (Tracks-forget now le w))
      ]

pub ttl-check_and_record :
    (s : NonceStore) (nonce : String) (now : ℕ)
    → (check_and_record nonce now s).0.ttl_seconds ≡ s.ttl_seconds
unfolding check_and_record
ttl-check_and_record s nonce now = ground arith

answers-expected_from :
    (start : ℕ) (h : History) (s : NonceStore) (calls : Calls)
    → InOrder start calls
    → Tracks start s.seen h
    → answers s calls ≡ expected s.ttl_seconds h calls
unfolding answers expected
answers-expected_from start h s [] o w = refl
answers-expected_from start h s ((nonce, now) ∷ calls) (le, o) w =
    let s' = (check_and_record nonce now s).0 in
    let h' = remember s.ttl_seconds h nonce now in
    let rest = answers-expected_from now h' s' calls o (check_and_record-Tracks s nonce now le w) in
    rw (check_and_record-answer s nonce now le w, rest, ttl-check_and_record s nonce now)

-- For calls whose times do not go back, a new store answers each exactly as an unpruned record of
-- every acceptance would: fresh, unless the same nonce was accepted and its lifetime is not over.
pub answers-expected :
    (ttl : ℕ) (calls : Calls)
    → InOrder 0 calls
    → answers (new_store ttl) calls ≡ expected ttl [] calls
answers-expected ttl calls o = answers-expected_from 0 [] (new_store ttl) calls o Tracks-empty
