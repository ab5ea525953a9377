-- ===== src/Ssf/Verify.antt =====
-- SsfReceiver._judge and verify_set of src/axiam_sdk/ssf/_receiver.py.
pub mod Recorded
use axiam_python_sdk.Base.{ℕ, String, Option, none, some}
use axiam_python_sdk.Json.{Fields}
use axiam_python_sdk.Runtime.{Runtime}
use axiam_python_sdk.Ssf.{Result, ok, raised, ◌>>=◌, SecurityEvent}
use axiam_python_sdk.Ssf.Parse.{Parsed, parse}
use axiam_python_sdk.Ssf.Keys.{Core}
use axiam_python_sdk.Ssf.KeyLookup.{Web, Http, Progress, key_for}
use axiam_python_sdk.Ssf.Judge.{Config, judge}
use axiam_python_sdk.Ssf.Store.{Answer, Asks, settle}

-- What a receiver is built from.
pub record Setup : Type 0 where
  pub rt : Runtime
  pub web : Web
  pub cfg : Config

-- What one verification meets: the readings of the clock, and the answers to its requests.
pub record World : Type 0 where
  pub clock : ℕ → ℕ
  pub http : ℕ → Http

module _ (u : Setup) where
  abbrev pub judge_found :
      Parsed → Option String → Progress (Option Fields) → Core × Result SecurityEvent
  judge_found parsed expected p =
      (p.core, p.answer >>= λ found. judge u.web.jose u.cfg parsed found expected)

  abbrev pub judge_parsed :
      World → Option String → Core → Result Parsed → Core × Result SecurityEvent
  judge_parsed w expected core (raised e) = (core, raised e)
  judge_parsed w expected core (ok parsed) =
      judge_found parsed expected (key_for u.web w.clock w.http parsed.kid core)

  -- _judge: steps 1 to 8; the store is not asked
  unfoldable pub judge_set : World → String → Option String → Core → Core × Result SecurityEvent
  judge_set w token expected core = judge_parsed w expected core (parse u.rt token)

  module _ {S : Type 0} (asks : Asks S) where
    abbrev pub record_event : S → Core × Result SecurityEvent → (Core × S) × Result SecurityEvent
    record_event s (core, raised e) = ((core, s), raised e)
    record_event s (core, ok event) =
        let (s', answer) = asks event.jti s in ((core, s'), settle event answer)

    -- verify_set: steps 1 to 9
    unfoldable pub verify_set : World → String → Core × S → (Core × S) × Result SecurityEvent
    verify_set w token (core, s) = record_event s (judge_set w token none core)
