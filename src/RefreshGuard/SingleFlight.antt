-- ===== src/RefreshGuard/SingleFlight.antt =====
-- How often the callers that saw one token refresh it.
use axiam_python_sdk.Base.{
  ℕ, zero, suc, ◌+◌, String, ◌≡◌, ◌≢◌, refl, true, false, Option, none, some, List, [], ◌∷◌, arith,
  eq_iff, if◌then◌else◌, length, ap,
}
use axiam_python_sdk.RefreshGuard.{
  Guard, Refreshed, Ran, Outcome, token, refresh_raised, refresh_if_needed,
}

-- The critical sections of callers that observed one token, in the order in which they get the
-- lock; each has what its own do_refresh would return.
unfoldable pub run_all : Option String → List (Option Refreshed) → Guard → List Ran
run_all observed [] g = []
run_all observed (result ∷ results) g =
    refresh_if_needed observed result g
    ∷ run_all observed results (refresh_if_needed observed result g).guard

abbrev pub calls : List Ran → ℕ
calls [] = 0
calls (r ∷ rs) = (if r.called then 1 else 0) + calls rs

abbrev pub outcomes : List Ran → List Outcome
outcomes [] = []
outcomes (r ∷ rs) = r.outcome ∷ outcomes rs

-- `n` copies before a list
abbrev pub repeat : {A : Type 0} → ℕ → A → List A → List A
repeat zero a l = l
repeat (suc n) a l = a ∷ repeat n a l

module _ (seen fresh : String) (changed : fresh ≢ seen) where
  served :
      (result : Option Refreshed) (g : Guard)
      → g.has_any ≡ true
      → g.cached_access ≡ some fresh
      → refresh_if_needed (some seen) result g
        ≡ record { guard = g; outcome = token fresh; called = false }
  unfolding refresh_if_needed
  served result g any holds = ground (arith, eq_iff fresh seen)

  all_served :
      (results : List (Option Refreshed)) (g : Guard)
      → g.has_any ≡ true
      → g.cached_access ≡ some fresh
      → (calls (run_all (some seen) results g) ≡ 0)
        × (outcomes (run_all (some seen) results g) ≡ repeat (length results) (token fresh) [])
  unfolding run_all
  all_served [] g any holds = (refl, refl)
  all_served (result ∷ results) g any holds = rw (served result g any holds) (
      let (c, o) = all_served results g any holds in
      (omega (arith, c), ap (λ os. token fresh ∷ os) o))

  first_refresh :
      (r : Refreshed) (g : Guard)
      → g.cached_access ≡ some seen
      → r.access ≡ some fresh
      → let out = refresh_if_needed (some seen) (some r) g in
        (out.called ≡ true)
        × (out.outcome ≡ token fresh)
        × (out.guard.has_any ≡ true)
        × (out.guard.cached_access ≡ some fresh)
  unfolding refresh_if_needed
  first_refresh r g holds new = ground (arith, eq_iff seen seen)

  failed_refresh :
      (g : Guard)
      → g.cached_access ≡ some seen
      → refresh_if_needed (some seen) none g
        ≡ record { guard = g; outcome = refresh_raised; called = true }
  unfolding refresh_if_needed
  failed_refresh g holds = ground (arith, eq_iff seen seen)

  -- Callers that observed the token in the cache, in whatever order they get the lock: if the first
  -- `n` refreshes raise and the next gives another access token, exactly those n + 1 callers call
  -- do_refresh; each of the n gets its own error, and everyone after them the new token.
  pub single_flight :
      (n : ℕ) (r : Refreshed) (rest : List (Option Refreshed)) (g : Guard)
      → g.cached_access ≡ some seen
      → r.access ≡ some fresh
      → let out = run_all (some seen) (repeat n none (some r ∷ rest)) g in
        (calls out ≡ n + 1)
        × (outcomes out ≡ repeat n refresh_raised (repeat (suc (length rest)) (token fresh) []))
  unfolding run_all
  single_flight zero r rest g holds new =
      let (c, o, any, holds') = first_refresh r g holds new in
      let g' = (refresh_if_needed (some seen) (some r) g).guard in
      let (none_called, all_fresh) = all_served rest g' any holds' in
      (rw (c, none_called) refl, rw (o, all_fresh) refl)
  single_flight (suc n) r rest g holds new =
      let (c, o) = single_flight n r rest g holds new in
      rw (failed_refresh g holds) (omega (arith, c), ap (λ os. refresh_raised ∷ os) o)
