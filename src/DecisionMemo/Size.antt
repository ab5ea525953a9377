-- ===== src/DecisionMemo/Size.antt =====
-- The bound on the memo of src/axiam_sdk/_decision_memo.py, and that a stored decision is there.
use axiam_python_sdk.Base.{
  ℕ, ◌+◌, ◌<◌, ◌≤◌, String, ◌≡◌, ◌↔◌, Bool, true, none, some, List, [], ◌∷◌, arith, eq_iff, length,
}
use axiam_python_sdk.Base.Int.{ℤ, pos}
use axiam_python_sdk.Dict.{Dict, lookup, put, remove, IsUnique}
use axiam_python_sdk.Dict.Laws.{lookup-put, lookup-remove}
use axiam_python_sdk.DecisionMemo.{
  Memo, new_memo, evict, recall, answer, memoize, clear, max_ttl, max_entries, reports_clamp,
}
use axiam_python_sdk.DecisionMemo.Staleness.{Op, set, get, drop_all, step, run}

module _ {D : Type 0} where
  evict-length : (d : Dict (D × ℕ)) → length (evict d) ≤ max_entries
  unfolding evict
  evict-length [] = omega arith
  evict-length (e ∷ d) = ground (arith, evict-length d)

  remove-length : (key : String) (d : Dict (D × ℕ)) → length (remove key d) ≤ length d
  unfolding remove
  remove-length key [] = omega arith
  remove-length key ((j, v) ∷ d) = ground (arith, remove-length key d)

  step-length :
      (op : Op D) (now : ℕ) (m : Memo D)
      → length m.entries ≤ max_entries
      → length (step op now m).entries ≤ max_entries
  unfolding step memoize recall answer clear
  step-length (set key decision) now m h =
      ground (arith, evict-length (put key (decision, now) (remove key m.entries)))
  step-length (get key) now m h = ground (arith, remove-length key m.entries)
  step-length drop_all now m h = omega arith

  run-length :
      (ops : List (Op D × ℕ)) (m : Memo D)
      → length m.entries ≤ max_entries
      → length (run m ops).entries ≤ max_entries
  unfolding run
  run-length [] m h = h
  run-length ((op, now) ∷ ops) m h = run-length ops (step op now m) (step-length op now m h)

  -- However many decisions are stored, the memo never holds more than 1024.
  pub length-run :
      (requested : ℤ) (ops : List (Op D × ℕ))
      → length (run (new_memo requested) ops).entries ≤ max_entries
  unfolding new_memo
  length-run requested ops = run-length ops (new_memo requested) (omega arith)

  -- A new key comes last, and the eviction takes only from the front.
  evict-put :
      (key : String) (v : D × ℕ) (d : Dict (D × ℕ))
      → lookup key d ≡ none
      → lookup key (evict (put key v d)) ≡ some v
  unfolding evict put lookup
  evict-put key v [] h = ground (arith, eq_iff key key)
  evict-put key v ((j, w) ∷ d) h =
      ground (arith, evict-put key v d, eq_iff j key, lookup-put key key v d, eq_iff key key)

  -- In a memo that is on and holds each key once, a decision that was just stored is answered,
  -- whole, until the TTL is over.
  pub recall-memoize :
      (key : String) (decision : D) (stored now : ℕ) (m : Memo D)
      → IsUnique m.entries
      → now < stored + m.ttl
      → 0 < m.ttl
      → (recall key now (memoize key decision stored m)).1 ≡ some decision
  unfolding recall memoize answer
  recall-memoize key decision stored now m u lt on = ground (
    arith,
    evict-put key (decision, stored) (remove key m.entries),
    lookup-remove key key m.entries u,
    eq_iff key key,
  )

  -- For a memo that was built with the requested TTL, the clamp is reported exactly when a hook is installed and the requested TTL is above five
  -- seconds.
  pub reports_clamp_iff :
      (m : Memo D) (installed : Bool) (requested : ℕ)
      → m ≡ new_memo (pos requested)
      → (reports_clamp installed (pos requested) m ≡ true)
        ↔ ((installed ≡ true) × (max_ttl < requested))
  unfolding reports_clamp new_memo
  reports_clamp_iff m installed requested e = rw e (ground arith)
