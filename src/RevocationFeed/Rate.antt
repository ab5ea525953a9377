-- ===== src/RevocationFeed/Rate.antt =====
-- How often src/axiam_sdk/_revocation_feed.py polls.
use native.Mathlib.Nat.{suc-mul}
use axiam_python_sdk.Base.{
  ℕ, ◌+◌, ◌*◌, ◌-◌, ◌≤◌, suc, ◌≡◌, refl, sym, Bool, if_lem, true, false, none, some, List, [], ◌∷◌,
  arith, if◌then◌else◌, leb, leb→le, Bool-cases, inl, inr,
}
use axiam_python_sdk.RevocationFeed.{
  RevocationFeed, Digest, new_feed, refresh, refresh_if_stale, is_revoked, due, min_poll_interval,
}
use axiam_python_sdk.RevocationFeed.Sticky.{Ask}

-- The questions come in order, and none ends after time t.
abbrev pub Until : ℕ → ℕ → List Ask → Type 0
Until start t [] = start ≤ t
Until start t (a ∷ asks) = (start ≤ a.now) × (a.now ≤ a.done) × Until a.done t asks

module _ (digest : Digest) where
  -- How many requests some questions make.
  abbrev pub polls : List Ask → RevocationFeed → ℕ
  polls [] f = 0
  polls (a ∷ asks) f =
      let rest = polls asks (is_revoked digest a.now a.done a.response a.sid f).0 in
      if (refresh_if_stale a.now a.done a.response f).1 then suc rest else rest

  requests_when_due :
      (a : Ask) (f : RevocationFeed) → (refresh_if_stale a.now a.done a.response f).1 ≡ due a.now f
  unfolding refresh_if_stale
  requests_when_due a f =
      if_lem (λ (asked : RevocationFeed × Bool). asked.1 ≡ due a.now f) (due a.now f) (λ h. sym h)
        (λ h. sym h)

  not_due :
      (a : Ask) (f : RevocationFeed)
      → due a.now f ≡ false
      → (is_revoked digest a.now a.done a.response a.sid f).0 ≡ f
  unfolding is_revoked refresh_if_stale
  not_due a f h = ground arith

  is_due :
      (a : Ask) (f : RevocationFeed)
      → due a.now f ≡ true
      → (is_revoked digest a.now a.done a.response a.sid f).0 ≡ refresh a.done a.response f
  unfolding is_revoked refresh_if_stale
  is_due a f h = ground arith

  due_since :
      (now last : ℕ) (f : RevocationFeed)
      → f.last_attempt ≡ some last
      → due now f ≡ true
      → last ≤ now
      → last + f.poll_interval ≤ now
  unfolding due
  due_since now last f e h le = ground (arith, leb→le f.poll_interval (now - last))

  suc_times : (n i : ℕ) → suc n * i ≡ i + n * i
  suc_times n i = omega (arith, suc-mul n i)

  polls_since :
      (t start last : ℕ) (asks : List Ask) (f : RevocationFeed)
      → f.last_attempt ≡ some last
      → last ≤ start
      → Until start t asks
      → last + polls asks f * f.poll_interval ≤ t
  unfolding refresh
  polls_since t start last [] f e le o = omega (arith, o)
  polls_since t start last (a ∷ asks) f e le (h, h', o) = elim (Bool-cases (due a.now f)) [
    | inl now_due ↦
        rw (requests_when_due a f, now_due, is_due a f now_due)
          (omega (
            arith,
            due_since a.now last f e now_due (omega arith),
            suc_times (polls asks (refresh a.done a.response f)) f.poll_interval,
            polls_since t a.done a.done asks (refresh a.done a.response f) refl (omega arith) o,
          ))
    | inr later ↦
        rw (requests_when_due a f, later, not_due a f later)
          (polls_since t a.done last asks f e (omega arith) o)
  ]

  due_first : (now : ℕ) (f : RevocationFeed) → f.last_attempt ≡ none → due now f ≡ true
  unfolding due
  due_first now f e = ground arith

  polls_new :
      (t : ℕ) (asks : List Ask) (f : RevocationFeed)
      → f.last_attempt ≡ none
      → Until 0 t asks
      → polls asks f * f.poll_interval ≤ t + f.poll_interval
  unfolding refresh
  polls_new t [] f e o = omega arith
  polls_new t (a ∷ asks) f e (h, h', o) =
      let now_due = due_first a.now f e in
      rw (requests_when_due a f, now_due, is_due a f now_due)
        (omega (
          arith,
          suc_times (polls asks (refresh a.done a.response f)) f.poll_interval,
          polls_since t a.done a.done asks (refresh a.done a.response f) refl (omega arith) o,
        ))

  -- A feed that is asked any number of times, in order and until time t, makes at most one request
  -- and one more per interval, which is the configured one or 15 seconds where that is longer,
  -- whether the requests succeed or not.
  pub polls_bound :
      (interval t : ℕ) (asks : List Ask)
      → Until 0 t asks
      → polls asks (new_feed interval)
          * (if leb min_poll_interval interval then interval else min_poll_interval)
        ≤ t + (if leb min_poll_interval interval then interval else min_poll_interval)
  unfolding new_feed
  polls_bound interval t asks o = polls_new t asks (new_feed interval) refl o
