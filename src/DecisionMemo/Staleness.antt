-- ===== src/DecisionMemo/Staleness.antt =====
-- What the memo of src/axiam_sdk/_decision_memo.py may answer: only the last decision stored for
-- the key since the last clear, and only within the TTL.
use axiam_python_sdk.Base.{
  ℕ, ◌+◌, ◌-◌, ◌<◌, String, ◌≡◌, refl, ◌∙◌, true, false, Option, none, some, List, [], ◌∷◌, arith,
  eq_iff, leb, Bool-cases, Option-cases, inl, inr,
}
use axiam_python_sdk.Base.Int.{ℤ}
use axiam_python_sdk.Dict.{Dict, lookup, put, remove, IsUnique}
use axiam_python_sdk.Dict.Laws.{lookup-put, lookup-remove, put-IsUnique, remove-IsUnique}
use axiam_python_sdk.DecisionMemo.{
  Memo, new_memo, evict, recall, answer, memoize, clear, max_ttl, enabled,
}

pub data Op (D : Type 0) : Type 0 where
  set : String → D → Op D
  get : String → Op D
  drop_all : Op D

module _ {D : Type 0} where
  unfoldable pub step : Op D → ℕ → Memo D → Memo D
  step (set key decision) now m = memoize key decision now m
  step (get key) now m = (recall key now m).0
  step drop_all now m = clear m

  unfoldable pub run : Memo D → List (Op D × ℕ) → Memo D
  run m [] = m
  run m ((op, now) ∷ ops) = run (step op now m) ops

  -- Every decision stored since the last clear, the last one for each key. Nothing expires.
  unfoldable pub remember : Op D → ℕ → Dict (D × ℕ) → Dict (D × ℕ)
  remember (set key decision) now d = put key (decision, now) d
  remember (get key) now d = d
  remember drop_all now d = []

  unfoldable pub stored_by : Dict (D × ℕ) → List (Op D × ℕ) → Dict (D × ℕ)
  stored_by d [] = d
  stored_by d ((op, now) ∷ ops) = stored_by (remember op now d) ops

  pub evict-lookup :
      (key : String) (e : D × ℕ) (d : Dict (D × ℕ))
      → IsUnique d
      → lookup key (evict d) ≡ some e
      → lookup key d ≡ some e
  unfolding evict lookup
  evict-lookup key e [] u h = h
  evict-lookup key e ((j, v) ∷ d) (fresh, u) h =
      ground (arith, evict-lookup key e d u, eq_iff j key)

  pub evict-IsUnique : (d : Dict (D × ℕ)) → IsUnique d → IsUnique (evict d)
  unfolding evict
  evict-IsUnique [] u = tt
  evict-IsUnique ((j, v) ∷ d) (fresh, u) = ground (arith, evict-IsUnique d u)

  -- The memo holds nothing but what was stored last.
  record Agrees (m : Memo D) (ideal : Dict (D × ℕ)) : Type 0 where
    unique : IsUnique m.entries
    disabled : enabled m ≡ false → m.entries ≡ []
    sound : (key : String) (e : D × ℕ) → lookup key m.entries ≡ some e → lookup key ideal ≡ some e

  empty-Agrees : (m : Memo D) (ideal : Dict (D × ℕ)) → m.entries ≡ [] → Agrees m ideal
  unfolding lookup
  empty-Agrees m ideal h = record {
    unique = rw h tt;
    disabled = λ _. h;
    sound = λ j e k. ground (arith, h);
  }

  memoize-Agrees :
      (key : String) (decision : D) (now : ℕ) (m : Memo D) (ideal : Dict (D × ℕ))
      → Agrees m ideal
      → Agrees (memoize key decision now m) (put key (decision, now) ideal)
  unfolding memoize
  memoize-Agrees key decision now m ideal a =
      let kept = remove key m.entries in
      let u = put-IsUnique key (decision, now) kept (remove-IsUnique key m.entries a.unique) in
      elim (Bool-cases (enabled m)) [
        | inr off ↦ rw off (empty-Agrees m _ (a.disabled off))
        | inl on ↦ rw on (record {
          unique = evict-IsUnique (put key (decision, now) kept) u;
          disabled = λ off. cc (on, off);
          sound = λ j e h. ground (
            arith,
            evict-lookup j e (put key (decision, now) kept) u h,
            lookup-put key j (decision, now) kept,
            lookup-put key j (decision, now) ideal,
            lookup-remove key j m.entries a.unique,
            a.sound j e,
            eq_iff key j,
          );
        })
      ]

  answer-Agrees :
      (key : String) (now : ℕ) (m : Memo D) (ideal : Dict (D × ℕ)) (o : Option (D × ℕ))
      → enabled m ≡ true
      → Agrees m ideal
      → Agrees (answer key now m o).0 ideal
  unfolding answer
  answer-Agrees key now m ideal none on a = a
  answer-Agrees key now m ideal (some (decision, stored)) on a =
      elim (Bool-cases (leb m.ttl (now - stored))) [
        | inr live ↦ rw live a
        | inl over ↦ rw over (record {
          unique = remove-IsUnique key m.entries a.unique;
          disabled = λ off. cc (on, off);
          sound = λ j e h.
              ground (arith, lookup-remove key j m.entries a.unique, a.sound j e, eq_iff key j);
        })
      ]

  recall-Agrees :
      (key : String) (now : ℕ) (m : Memo D) (ideal : Dict (D × ℕ))
      → Agrees m ideal
      → Agrees (recall key now m).0 ideal
  unfolding recall
  recall-Agrees key now m ideal a = elim (Bool-cases (enabled m)) [
    | inr off ↦ rw off a
    | inl on ↦ rw on (answer-Agrees key now m ideal (lookup key m.entries) on a)
  ]

  step-Agrees :
      (op : Op D) (now : ℕ) (m : Memo D) (ideal : Dict (D × ℕ))
      → Agrees m ideal
      → Agrees (step op now m) (remember op now ideal)
  unfolding step remember clear
  step-Agrees (set key decision) now m ideal a = memoize-Agrees key decision now m ideal a
  step-Agrees (get key) now m ideal a = recall-Agrees key now m ideal a
  step-Agrees drop_all now m ideal a = empty-Agrees _ [] refl

  run-Agrees :
      (ops : List (Op D × ℕ)) (m : Memo D) (ideal : Dict (D × ℕ))
      → Agrees m ideal
      → Agrees (run m ops) (stored_by ideal ops)
  unfolding run stored_by
  run-Agrees [] m ideal a = a
  run-Agrees ((op, now) ∷ ops) m ideal a =
      run-Agrees ops (step op now m) (remember op now ideal) (step-Agrees op now m ideal a)

  -- No operation changes the TTL.
  ttl-step : (op : Op D) (now : ℕ) (m : Memo D) → (step op now m).ttl ≡ m.ttl
  unfolding step memoize recall answer clear
  ttl-step (set key decision) now m = ground arith
  ttl-step (get key) now m = ground arith
  ttl-step drop_all now m = refl

  ttl-run : (ops : List (Op D × ℕ)) (m : Memo D) → (run m ops).ttl ≡ m.ttl
  unfolding run
  ttl-run [] m = refl
  ttl-run ((op, now) ∷ ops) m = ttl-run ops (step op now m) ∙ ttl-step op now m

  -- A memo may answer with a decision only where that was the last one stored for the key.
  pub record IsCurrent (ideal : Dict (D × ℕ)) (key : String) (decision : D) (now : ℕ) : Type 0 where
    pub stored : ℕ
    pub last : lookup key ideal ≡ some (decision, stored)
    pub young : now < stored + max_ttl

  recall-found :
      (key : String) (now : ℕ) (m : Memo D) (decision : D)
      → (recall key now m).1 ≡ some decision
      → (stored : ℕ) × (lookup key m.entries ≡ some (decision, stored)) × (now < stored + m.ttl)
  unfolding recall answer
  recall-found key now m decision h = elim (Option-cases (lookup key m.entries)) [
    | inl e ↦ absurd (ground (arith, e))
    | inr (entry, e) ↦ (entry.1, ground (arith, e), ground (arith, e))
  ]

  -- Whatever was stored, read and cleared before, an answer of the memo is the decision that was
  -- stored last for the key since the last clear, less than five seconds ago.
  pub recall-IsCurrent :
      (requested : ℤ) (ops : List (Op D × ℕ)) (key : String) (now : ℕ) (decision : D)
      → (recall key now (run (new_memo requested) ops)).1 ≡ some decision
      → IsCurrent (stored_by [] ops) key decision now
  unfolding new_memo
  recall-IsCurrent requested ops key now decision h =
      let m = new_memo requested in
      let (stored, found, young) = recall-found key now (run m ops) decision h in
      let a = run-Agrees ops m [] (empty-Agrees m [] refl) in
      record {
        stored = stored;
        last = a.sound key (decision, stored) found;
        young = omega (arith, young, ttl-run ops m);
      }
