-- ===== src/RefreshGuard/Exclusion.antt =====
-- At most one critical section of src/axiam_sdk/token/refresh_guard.py runs, and no refresh is
-- made for a caller whose observed token was already replaced.
use axiam_python_sdk.Base.{
  ℕ, String, ◌≡◌, ◌≢◌, refl, sym, inl, inr, true, false, Option, none, some, arith, eqb, Bool-cases,
  subst,
}
use axiam_python_sdk.RefreshGuard.{Guard, should_skip_refresh, refreshed}
use axiam_python_sdk.RefreshGuard.Lock.{
  Phase, idle, waiting, refreshing, exclusive, returned, System, update, init, Step, call, skip,
  start, finish, enter, leave, again, Move, step, log_in, Reach, here, next, Quiet,
}

-- The phases in which a thread is inside the critical section.
abbrev pub Inside : Phase → Type 0
Inside (refreshing observed) = Unit
Inside exclusive = Unit
Inside _ = ⊥

-- Whoever is inside holds the lock.
abbrev Owned : System → Type 0
Owned s = (t : ℕ) → Inside (s.phase t) → s.lock ≡ some t

eqb→eq : (u t : ℕ) → eqb u t ≡ true → u ≡ t
eqb→eq u t h = ground arith

ne_of_eqb : (u t : ℕ) → eqb u t ≡ false → u ≢ t
ne_of_eqb u t h e = ground arith

-- After thread `t` has moved to phase `p`, a property of every thread's phase holds if it holds of
-- the others where they stay, and of `p`.
module _ (P : ℕ → Phase → Type 0) (s : System) (t : ℕ) (p : Phase) where
  update_all : ((u : ℕ) → u ≢ t → P u (s.phase u)) → P t p → (u : ℕ) → P u (update s.phase t p u)
  update_all others own u = elim (Bool-cases (eqb u t)) [
    | inl same ↦ rw same (subst (λ v. P v p) (sym (eqb→eq u t same)) own)
    | inr different ↦ rw different (others u (ne_of_eqb u t different))
  ]

abbrev HasLock : Option ℕ → ℕ → Phase → Type 0
HasLock lock u p = Inside p → lock ≡ some u

Inside-refreshing : {p : Phase} (observed : Option String) → p ≡ refreshing observed → Inside p
Inside-refreshing observed e = rw e tt

Inside-exclusive : {p : Phase} → p ≡ exclusive → Inside p
Inside-exclusive e = rw e tt

-- Two threads that own one lock are the same.
same_owner : {l : Option ℕ} {t u : ℕ} → l ≡ some t → l ≡ some u → u ≡ t
same_owner p q = cc

module _ (s : System) (h : Owned s) where
  -- no thread is inside while the lock is free
  keep_out : (lock : Option ℕ) → s.lock ≡ none → (t u : ℕ) → u ≢ t → HasLock lock u (s.phase u)
  keep_out lock free t u different inside = absurd (cc (free, h u inside))

  -- no other thread is inside while `t` is
  only-Inside :
      (lock : Option ℕ) (t : ℕ) → Inside (s.phase t) → (u : ℕ) → u ≢ t → HasLock lock u (s.phase u)
  only-Inside lock t mine u different inside =
      absurd (different (same_owner (h t mine) (h u inside)))

Step-Owned : {s u : System} → Step s u → Owned s → Owned u
Step-Owned {s} (call t o e) h =
    update_all (HasLock s.lock) s t (waiting o) (λ v _. h v) (λ i. absurd i)
Step-Owned {s} (skip t o e free fresh) h =
    update_all (HasLock s.lock) s t (returned _) (λ v _. h v) (λ i. absurd i)
Step-Owned {s} (start t o e free stale) h =
    update_all (HasLock (some t)) s t (refreshing o) (keep_out s h (some t) free t) (λ _. refl)
Step-Owned {s} (finish t o result e) h =
    update_all (HasLock none) s t (returned _) (only-Inside s h none t (Inside-refreshing o e))
      (λ i. absurd i)
Step-Owned {s} (enter t e free) h =
    update_all (HasLock (some t)) s t exclusive (keep_out s h (some t) free t) (λ _. refl)
Step-Owned {s} (leave t e) h =
    update_all (HasLock none) s t idle (only-Inside s h none t (Inside-exclusive e)) (λ i. absurd i)
Step-Owned {s} (again t o e) h = update_all (HasLock s.lock) s t idle (λ v _. h v) (λ i. absurd i)

Move-Owned : {s u : System} → Move s u → Owned s → Owned u
Move-Owned (step st) h = Step-Owned st h
Move-Owned (log_in access refresh exp) h = h

Reach-Owned : {s u : System} → Reach s u → Owned s → Owned u
Reach-Owned here h = h
Reach-Owned (next r m) h = Move-Owned m (Reach-Owned r h)

-- From a guard that nobody uses, whatever the threads and logins do: two threads that are both
-- inside a critical section, a refresh or an exclusive call, are the same thread.
pub mutual_exclusion :
    (g : Guard) (s : System) (t u : ℕ)
    → Reach (init g) s
    → Inside (s.phase t)
    → Inside (s.phase u)
    → t ≡ u
mutual_exclusion g s t u r mine other =
    let h = Reach-Owned r (λ v i. absurd i) in same_owner (h u other) (h t mine)

-- A refresh that runs is still needed: the cache does not hold a newer token than the caller's.
abbrev Needed : Guard → ℕ → Phase → Type 0
Needed g u p =
    (observed : Option String) → p ≡ refreshing observed → should_skip_refresh g observed ≡ false

abbrev AllNeeded : System → Type 0
AllNeeded s = (u : ℕ) → Needed s.guard u (s.phase u)

Step-Needed : {s u : System} → Step s u → Owned s → AllNeeded s → AllNeeded u
Step-Needed {s} (call t o e) w h =
    update_all (Needed s.guard) s t (waiting o) (λ v _. h v) (λ _ i. cc)
Step-Needed {s} (skip t o e free fresh) w h =
    update_all (Needed s.guard) s t (returned _) (λ v _. h v) (λ _ i. cc)
Step-Needed {s} (start t o e free stale) w h =
    update_all (Needed s.guard) s t (refreshing o) (λ v _. h v) (λ o' i. cc)
Step-Needed {s} (finish t o result e) w h =
    update_all (Needed (refreshed s.guard result).guard) s t (returned _)
      (λ u different o' e'.
        absurd
          (different (same_owner (w t (Inside-refreshing o e)) (w u (Inside-refreshing o' e')))))
      (λ _ i. cc)
Step-Needed {s} (enter t e free) w h =
    update_all (Needed s.guard) s t exclusive (λ v _. h v) (λ _ i. cc)
Step-Needed {s} (leave t e) w h = update_all (Needed s.guard) s t idle (λ v _. h v) (λ _ i. cc)
Step-Needed {s} (again t o e) w h = update_all (Needed s.guard) s t idle (λ v _. h v) (λ _ i. cc)

Quiet-Reach : {s u : System} → Quiet s u → Reach s u
Quiet-Reach here = here
Quiet-Reach (next q st) = next (Quiet-Reach q) (step st)

Quiet-Needed : {s u : System} → Quiet s u → Owned s → AllNeeded s → AllNeeded u
Quiet-Needed here w h = h
Quiet-Needed (next q st) w h = Step-Needed st (Reach-Owned (Quiet-Reach q) w) (Quiet-Needed q w h)

-- While nobody logs in, a thread that refreshes still has reason to, up to the moment it stores the
-- result: the cache holds the very token that it observed, or it observed none or the cache is empty.
pub refresh_needed :
    (g : Guard) (s : System) (t : ℕ) (observed : Option String)
    → Quiet (init g) s
    → s.phase t ≡ refreshing observed
    → should_skip_refresh s.guard observed ≡ false
refresh_needed g s t observed q e = Quiet-Needed q (λ v i. absurd i) (λ v o i. cc) t observed e
