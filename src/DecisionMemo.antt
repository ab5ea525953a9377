-- ===== src/DecisionMemo.antt =====
-- src/axiam_sdk/_decision_memo.py: the memo of authorization decisions. Times and the TTL are
-- microseconds. The memo's lock makes each operation atomic, so a run is a row of operations.
pub mod Key
pub mod Staleness
pub mod Size
use Prim.Native.String.{◌++◌}
use axiam_python_sdk.Base.{
  ℕ, ◌+◌, ◌-◌, ◌≤◌, min, String, Bool, true, false, ◌&&◌, not, Option, none, some, List, [], ◌∷◌,
  ltb, leb, eqb, if◌then◌else◌, length,
}
use axiam_python_sdk.Base.Int.{ℤ, pos, negsuc, pos_part}
use axiam_python_sdk.Dict.{Dict, lookup, put, remove}

abbrev pub max_ttl : ℕ
max_ttl = 5_000_000

abbrev pub max_entries : ℕ
max_entries = 1024

-- while len(entries) > max_entries: entries.popitem(last=False)
unfoldable pub evict {ℓ} : {V : Type ℓ} → Dict V → Dict V
evict [] = []
evict (entry ∷ d) =
    let rest = evict d in if ltb max_entries (length (entry ∷ d)) then rest else entry ∷ d

pub record Memo (D : Type 0) : Type 0 where
  pub ttl : ℕ
  -- key -> decision and the time when it was stored, oldest first
  pub entries : Dict (D × ℕ)

module _ {D : Type 0} where
  -- __init__: the requested TTL is clamped, not refused
  unfoldable pub new_memo : ℤ → Memo D
  new_memo requested = record { ttl = min (pos_part requested) max_ttl; entries = [] }

  abbrev pub enabled : Memo D → Bool
  enabled m = ltb 0 m.ttl

  -- the entry that was found, at the time of the call
  unfoldable pub answer : String → ℕ → Memo D → Option (D × ℕ) → Memo D × Option D
  answer key now m none = (m, none)
  answer key now m (some (decision, stored)) =
      if leb m.ttl (now - stored)
      then (record m { entries = remove key m.entries }, none)
      else (m, some decision)

  -- get
  unfoldable pub recall : String → ℕ → Memo D → Memo D × Option D
  recall key now m = if enabled m then answer key now m (lookup key m.entries) else (m, none)

  -- set
  unfoldable pub memoize : String → D → ℕ → Memo D → Memo D
  memoize key decision now m =
      if enabled m
      then record m { entries = evict (put key (decision, now) (remove key m.entries)) }
      else m

  unfoldable pub clear : Memo D → Memo D
  clear m = record m { entries = [] }

  -- report_clamp: whether a ConfigClamped event is emitted for a requested TTL
  unfoldable pub reports_clamp : Bool → ℤ → Memo D → Bool
  reports_clamp installed (negsuc n) m = false
  reports_clamp installed (pos n) m = installed && ltb 0 n && not (eqb n m.ttl)

abbrev pub separator : String
separator = "\u{1f}"

abbrev pub absent : String
absent = "\0"

abbrev pub component : Option String → String
component none = absent
component (some s) = s

-- memo_key
unfoldable pub memo_key : String → String → Option String → Option String → Option String → String
memo_key action resource_id scope subject_id acting_tenant =
    component subject_id
    ++ (separator
        ++ (resource_id
            ++ (separator
                ++ (action
                    ++ (separator
                        ++ (component scope ++ (separator ++ component acting_tenant)))))))
