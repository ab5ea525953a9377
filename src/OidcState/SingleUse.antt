-- ===== src/OidcState/SingleUse.antt =====
-- A login state of src/axiam_sdk/_oidc_state.py is given out once, and within its lifetime.
use axiam_python_sdk.Base.{
  ℕ, ◌+◌, ◌≤◌, String, ◌==◌, ◌≡◌, refl, ap, ◌∙◌, Bool, true, false, Option, none, some, List, [],
  ◌∷◌, arith, leb, str_refl, if◌then◌else◌, All,
}
use axiam_python_sdk.Dict.{lookup, IsUnique}
use axiam_python_sdk.Dict.Laws.{
  lookup-put, lookup-remove, lookup-keep, put-IsUnique, remove-IsUnique, keep-IsUnique, kept,
}
use axiam_python_sdk.OidcState.{
  OidcStateEntry, MemoryOidcStateStore, new_store, unexpired, sweep, size, save, consume,
  unless_expired, oidc_state_ttl,
}

-- The calls of a store, with the readings of the clock that each makes.
pub data Call : Type 0 where
  saved : ℕ → ℕ → OidcStateEntry → Call
  consumed : ℕ → String → Call
  counted : ℕ → Call

abbrev pub step : Call → MemoryOidcStateStore → MemoryOidcStateStore
step (saved swept now entry) s = save swept now entry s
step (consumed now state) s = (consume now state s).0
step (counted now) s = (size now s).0

abbrev pub run : List Call → MemoryOidcStateStore → MemoryOidcStateStore
run [] s = s
run (c ∷ cs) s = run cs (step c s)

-- A call that neither saves nor consumes this state, and does not sweep after time t.
abbrev pub Spares : String → ℕ → Call → Type 0
Spares state t (saved swept now entry) = ((entry.state == state) ≡ false) × (swept ≤ t)
Spares state t (consumed now k) = (k == state) ≡ false
Spares state t (counted now) = now ≤ t

-- What a consume at time t would give out.
abbrev pub gives : String → ℕ → MemoryOidcStateStore → Option OidcStateEntry
gives state t s = unless_expired t (lookup state s.entries)

unless_expired-kept :
    (now t : ℕ) (o : Option (OidcStateEntry × ℕ))
    → now ≤ t
    → unless_expired t (kept (unexpired now) o) ≡ unless_expired t o
unless_expired-kept now t none le = refl
unless_expired-kept now t (some (entry, expires_at)) le = ground arith

sweep-IsUnique :
    (now : ℕ) (s : MemoryOidcStateStore) → IsUnique s.entries → IsUnique (sweep now s).entries
unfolding sweep
sweep-IsUnique now s u = keep-IsUnique (unexpired now) s.entries u

gives-sweep :
    (state : String) (now t : ℕ) (s : MemoryOidcStateStore)
    → IsUnique s.entries
    → now ≤ t
    → gives state t (sweep now s) ≡ gives state t s
unfolding sweep
gives-sweep state now t s u le =
    rw (lookup-keep (unexpired now) state s.entries u)
      (unless_expired-kept now t (lookup state s.entries) le)

step-IsUnique :
    (c : Call) (s : MemoryOidcStateStore) → IsUnique s.entries → IsUnique (step c s).entries
unfolding save consume size
step-IsUnique (saved swept now entry) s u =
    put-IsUnique entry.state (entry, now + s.ttl) (sweep swept s).entries (sweep-IsUnique swept s u)
step-IsUnique (consumed now k) s u = remove-IsUnique k s.entries u
step-IsUnique (counted now) s u = sweep-IsUnique now s u

gives-step :
    (state : String) (t : ℕ) (c : Call) (s : MemoryOidcStateStore)
    → IsUnique s.entries
    → Spares state t c
    → gives state t (step c s) ≡ gives state t s
unfolding save consume size
gives-step state t (saved swept now entry) s u (other, le) =
    rw (lookup-put entry.state state (entry, now + s.ttl) (sweep swept s).entries, other)
      (gives-sweep state swept t s u le)
gives-step state t (consumed now k) s u other = rw (lookup-remove k state s.entries u, other) refl
gives-step state t (counted now) s u le = gives-sweep state now t s u le

gives-run :
    (state : String) (t : ℕ) (cs : List Call) (s : MemoryOidcStateStore)
    → IsUnique s.entries
    → All (Spares state t) cs
    → gives state t (run cs s) ≡ gives state t s
gives-run state t [] s u _ = refl
gives-run state t (c ∷ cs) s u (spares, rest) =
    gives-run state t cs (step c s) (step-IsUnique c s u) rest ∙ gives-step state t c s u spares

-- A store that calls have built from a new one holds each state once.
pub run-IsUnique :
    (cs : List Call) (s : MemoryOidcStateStore) → IsUnique s.entries → IsUnique (run cs s).entries
run-IsUnique [] s u = u
run-IsUnique (c ∷ cs) s u = run-IsUnique cs (step c s) (step-IsUnique c s u)

step-ttl : (c : Call) (s : MemoryOidcStateStore) → (step c s).ttl ≡ s.ttl
unfolding save consume size sweep
step-ttl (saved swept now entry) s = refl
step-ttl (consumed now k) s = refl
step-ttl (counted now) s = refl

-- No call changes the lifetime.
run-ttl : (cs : List Call) (s : MemoryOidcStateStore) → (run cs s).ttl ≡ s.ttl
run-ttl [] s = refl
run-ttl (c ∷ cs) s = run-ttl cs (step c s) ∙ step-ttl c s

-- A call that does not save this state.
abbrev pub SavesNot : String → Call → Type 0
SavesNot state (saved swept now entry) = (entry.state == state) ≡ false
SavesNot state (consumed now k) = Unit
SavesNot state (counted now) = Unit

absent_sweep :
    (state : String) (now : ℕ) (s : MemoryOidcStateStore)
    → IsUnique s.entries
    → lookup state s.entries ≡ none
    → lookup state (sweep now s).entries ≡ none
unfolding sweep
absent_sweep state now s u gone =
    lookup-keep (unexpired now) state s.entries u ∙ ap (kept (unexpired now)) gone

absent_removed : (b : Bool) {A : Type 0} (o : Option A) → o ≡ none → (if b then none else o) ≡ none
absent_removed true o gone = refl
absent_removed false o gone = gone

absent_step :
    (state : String) (c : Call) (s : MemoryOidcStateStore)
    → IsUnique s.entries
    → SavesNot state c
    → lookup state s.entries ≡ none
    → lookup state (step c s).entries ≡ none
unfolding save consume size
absent_step state (saved swept now entry) s u differs gone =
    rw (lookup-put entry.state state (entry, now + s.ttl) (sweep swept s).entries, differs)
      (absent_sweep state swept s u gone)
absent_step state (consumed now k) s u _ gone =
    lookup-remove k state s.entries u ∙ absent_removed (k == state) (lookup state s.entries) gone
absent_step state (counted now) s u _ gone = absent_sweep state now s u gone

-- A state that is absent stays so while no call saves it.
absent_run :
    (state : String) (cs : List Call) (s : MemoryOidcStateStore)
    → IsUnique s.entries
    → All (SavesNot state) cs
    → lookup state s.entries ≡ none
    → lookup state (run cs s).entries ≡ none
absent_run state [] s u _ gone = gone
absent_run state (c ∷ cs) s u (unsaved, rest) gone =
    absent_run state cs (step c s) (step-IsUnique c s u) rest (absent_step state c s u unsaved gone)

module _ (ttl : ℕ) (before cs : List Call) where
  abbrev start : MemoryOidcStateStore
  start = run before (new_store ttl)

  start-IsUnique : IsUnique start.entries
  unfolding new_store
  start-IsUnique = run-IsUnique before (new_store ttl) tt

  gives_saved :
      (swept now t : ℕ) (entry : OidcStateEntry)
      → gives entry.state t (save swept now entry start)
        ≡ (if leb (now + start.ttl) t then none else some entry)
  unfolding save
  gives_saved swept now t entry =
      rw
        (
          lookup-put entry.state entry.state (entry, now + start.ttl) (sweep swept start).entries,
          str_refl entry.state,
        )
        refl

  -- In a store that any calls have built, an entry that is saved at `now` and not saved again or
  -- consumed is given out by a consume at `t` exactly if its lifetime, the configured one or ten
  -- minutes where that is less, is not over. No call in between may have swept with a clock after `t`.
  pub consume-save :
      (swept now t : ℕ) (entry : OidcStateEntry)
      → All (Spares entry.state t) cs
      → (consume t entry.state (run cs (save swept now entry start))).1 ≡ (
          if leb (now + (if leb ttl oidc_state_ttl then ttl else oidc_state_ttl)) t
          then none
          else some entry)
  unfolding consume new_store
  consume-save swept now t entry spares =
      let u = step-IsUnique (saved swept now entry) start start-IsUnique in
      gives-run entry.state t cs (save swept now entry start) u spares
      ∙ (gives_saved swept now t entry ∙ rw (run-ttl before (new_store ttl)) refl)

  -- In a store that any calls have built, a state that was consumed is not given out again, at any
  -- time, by any later consume, after any calls of which none saves it again: consumes of the same
  -- state and sweeps at any time are among them.
  pub consume-consume :
      (first t : ℕ) (state : String)
      → All (SavesNot state) cs
      → (consume t state (run cs (consume first state start).0)).1 ≡ none
  unfolding consume
  consume-consume first t state unsaved = ap (unless_expired t) (
      absent_run state cs _ (step-IsUnique (consumed first state) start start-IsUnique) unsaved
        (rw (lookup-remove state state start.entries start-IsUnique, str_refl state) refl))
