-- ===== src/Tests/Receiver.antt =====
-- The SSF receiver on concrete tokens.
use axiam_python_sdk.Base.{
  false, ℕ, ◌≡◌, refl, Bool, true, false, none, some, List, [], ◌∷◌, arith, String,
}
use axiam_python_sdk.Base.Int.{pos}
use axiam_python_sdk.Dict.{Dict}
use axiam_python_sdk.Json.{Value, int, str, obj, Fields, end}
use axiam_python_sdk.Ssf.{
  Result, ok, raised, Failure, network, auth, refusal, malformed, invalid_request, SecurityEvent,
}
use axiam_python_sdk.Ssf.Keys.{Core}
use axiam_python_sdk.Ssf.KeyLookup.{Web, Http, transport_error, broken, key_for}
use axiam_python_sdk.Ssf.Keys.{may_force}
use axiam_python_sdk.Ssf.KeyLookup.Limit.{outage_limit}
use axiam_python_sdk.Ssf.Parse.{Parsed}
use axiam_python_sdk.Ssf.Judge.{Config, judge}
use axiam_python_sdk.Ssf.Store.{
  logged, Answer, fresh, cannot, Asks, MemoryReplayStore, check_and_record,
}
use axiam_python_sdk.Ssf.Verify.{Setup, World, judge_set, verify_set}
use axiam_python_sdk.Ssf.Verify.Recorded.{Judged, verify_set_iff}
use axiam_python_sdk.Ssf.Poll.{Entry, Collected, replay_store, poll_sets}
use axiam_python_sdk.Ssf.Poll.Total.{Escapes, EndsOk, poll_sets-EndsOk}
use axiam_python_sdk.Ssf.Poll.Partition.{Split, poll_sets-Split}
use axiam_python_sdk.Ssf.Poll.Outage.{IsIdle, poll_sets-IsIdle}
use axiam_python_sdk.Tests.Setting.{runtime, jose, set_claims}

abbrev pub receiver : Setup
receiver = record {
  rt = runtime;
  web = record { jose = jose; parse_url = λ url. some (record { scheme = "https"; host = "x" }) };
  cfg = record { issuer = "me"; audience = "you"; replay_window = 300 };
}

-- the network is down
abbrev offline : ℕ → Http
offline i url = transport_error

abbrev pub world : World
world = record { clock = λ i. 110; http = offline }

abbrev pub warm : Core
warm = record {
  issuer = "me";
  jwks_uri = some "u";
  discovery_url = none;
  keys = some (("k", end) ∷ []);
  fetched_at = 100;
  last_forced = none;
}

abbrev cold : Core
cold = record warm { keys = none }

abbrev pub event : String → SecurityEvent
event jti = record {
  jti = jti;
  iat = int (pos 1);
  iss = "me";
  aud = str "you";
  txn = none;
  event_type = "logout";
  event = end;
  sub_id = end;
}

abbrev pub empty_store : MemoryReplayStore
empty_store = record { seen = [] }

abbrev parsed : Parsed
parsed = record { kid = "k"; signing_input = []; signature = []; claims = set_claims "a" }

verify_set_iff_example :
    Judged receiver world "h.a.s" none warm (event "a")
    × ((check_and_record 300 50 "a" empty_store).1 ≡ fresh)
unfolding verify_set judge_set axiam_python_sdk.Ssf.Parse.parse axiam_python_sdk.Text.split
    axiam_python_sdk.Text.every axiam_python_sdk.Json.get axiam_python_sdk.Text.lower_equals key_for
    axiam_python_sdk.Ssf.KeyLookup.fill axiam_python_sdk.Ssf.Keys.needs_fetch
    axiam_python_sdk.Ssf.KeyLookup.refetch axiam_python_sdk.Dict.lookup judge
    axiam_python_sdk.Ssf.Judge.signature_ok axiam_python_sdk.Ssf.Judge.judge_claims
    axiam_python_sdk.Ssf.Judge.is_issuer axiam_python_sdk.Ssf.Judge.names_audience
    axiam_python_sdk.Ssf.Judge.expects axiam_python_sdk.Ssf.Judge.jti_text
    axiam_python_sdk.Ssf.Judge.numeric axiam_python_sdk.Ssf.Judge.single_event
    axiam_python_sdk.Ssf.Store.settle axiam_python_sdk.Dict.put check_and_record
    axiam_python_sdk.Expiring.forget axiam_python_sdk.Dict.keep
verify_set_iff_example =
    (verify_set_iff receiver world "h.a.s" (check_and_record 300 50) warm empty_store (event "a")).0
      refl

abbrev entry : String → String → Entry
entry jti token = record { jti = jti; set = str token; world = world }

abbrev batch : List Entry
batch = entry "a" "h.a.s" ∷ entry "x" "h.b.s" ∷ entry "b" "h.b.s" ∷ []

abbrev pub collected : Collected
collected = record {
  events = event "a" ∷ event "b" ∷ [];
  refused = (record { jti = "x"; reason = invalid_request }) ∷ [];
  unjudged = [];
  trouble = none;
}

poll_sets-Split_example :
    Split ("a" ∷ "x" ∷ "b" ∷ []) (event "a" ∷ event "b" ∷ []) collected.refused []
    × ((poll_sets receiver
          (logged (check_and_record 300 50))
          batch
          warm
          (empty_store, [])
          none).store.1
        ≡ "a" ∷ "b" ∷ [])
unfolding poll_sets judge_set axiam_python_sdk.Ssf.Parse.parse axiam_python_sdk.Text.split
    axiam_python_sdk.Text.every axiam_python_sdk.Json.get axiam_python_sdk.Text.lower_equals key_for
    axiam_python_sdk.Ssf.KeyLookup.fill axiam_python_sdk.Ssf.Keys.needs_fetch
    axiam_python_sdk.Ssf.KeyLookup.refetch axiam_python_sdk.Dict.lookup judge
    axiam_python_sdk.Ssf.Judge.signature_ok axiam_python_sdk.Ssf.Judge.judge_claims
    axiam_python_sdk.Ssf.Judge.is_issuer axiam_python_sdk.Ssf.Judge.names_audience
    axiam_python_sdk.Ssf.Judge.expects axiam_python_sdk.Ssf.Judge.jti_text
    axiam_python_sdk.Ssf.Judge.numeric axiam_python_sdk.Ssf.Judge.single_event
    axiam_python_sdk.Ssf.Store.settle axiam_python_sdk.Dict.put check_and_record
    axiam_python_sdk.Expiring.forget axiam_python_sdk.Dict.keep
poll_sets-Split_example =
    poll_sets-Split receiver (check_and_record 300 50) batch warm empty_store none collected refl

poll_sets-IsIdle_example :
    IsIdle empty_store
      (network "down", replay_store)
      (poll_sets receiver
        (check_and_record 300 50)
        batch
        warm
        empty_store
        (some (network "down", replay_store)))
poll_sets-IsIdle_example =
    poll_sets-IsIdle receiver (check_and_record 300 50) batch warm empty_store
      (network "down", replay_store)

-- a store whose second call ends in an AuthError
abbrev locked : Asks Bool
locked jti false = (true, fresh)
locked jti true = (true, cannot (auth "denied"))

-- an AuthError of the store leaves the poll, although the store has a new id
escaped :
    ((poll_sets receiver locked (entry "a" "h.a.s" ∷ entry "b" "h.b.s" ∷ []) warm false none).ended
      ≡ raised (auth "denied"))
    × ((poll_sets receiver
          (logged locked)
          (entry "a" "h.a.s" ∷ entry "b" "h.b.s" ∷ [])
          warm
          (false, [])
          none).store.1
        ≡ "a" ∷ [])
unfolding poll_sets judge_set axiam_python_sdk.Ssf.Parse.parse axiam_python_sdk.Text.split
    axiam_python_sdk.Text.every axiam_python_sdk.Json.get axiam_python_sdk.Text.lower_equals key_for
    axiam_python_sdk.Ssf.KeyLookup.fill axiam_python_sdk.Ssf.Keys.needs_fetch
    axiam_python_sdk.Ssf.KeyLookup.refetch axiam_python_sdk.Dict.lookup judge
    axiam_python_sdk.Ssf.Judge.signature_ok axiam_python_sdk.Ssf.Judge.judge_claims
    axiam_python_sdk.Ssf.Judge.is_issuer axiam_python_sdk.Ssf.Judge.names_audience
    axiam_python_sdk.Ssf.Judge.expects axiam_python_sdk.Ssf.Judge.jti_text
    axiam_python_sdk.Ssf.Judge.numeric axiam_python_sdk.Ssf.Judge.single_event
    axiam_python_sdk.Ssf.Store.settle axiam_python_sdk.Dict.put axiam_python_sdk.Expiring.forget
    axiam_python_sdk.Dict.keep
escaped = (refl, refl)

outage_limit_example :
    (key_for receiver.web
      (λ i. 120)
      offline
      "j"
      (key_for receiver.web (λ i. 110) offline "k" cold).core).fetches
    ≡ 0
unfolding key_for axiam_python_sdk.Ssf.KeyLookup.fill axiam_python_sdk.Ssf.Keys.needs_fetch
    axiam_python_sdk.Ssf.Keys.may_force axiam_python_sdk.Ssf.KeyLookup.fetch_jwks
    axiam_python_sdk.Ssf.KeyLookup.resolve_uri axiam_python_sdk.Ssf.KeyLookup.download
    axiam_python_sdk.Text.lower_equals
outage_limit_example =
    outage_limit receiver.web (λ i. 110) (λ i. 120) offline offline "k" "j" cold
      (network "transport") refl (omega arith) refl (omega arith) (λ i. omega arith)

-- the content of the response cannot be decoded
abbrev garbled : ℕ → Http
garbled i url = broken "decoding"

-- such a failure is not counted, and the next lookup fetches again
uncounted :
    (key_for receiver.web
      (λ i. 120)
      garbled
      "j"
      (key_for receiver.web (λ i. 110) garbled "k" cold).core).fetches
    ≡ 1
unfolding key_for axiam_python_sdk.Ssf.KeyLookup.fill axiam_python_sdk.Ssf.Keys.needs_fetch
    axiam_python_sdk.Ssf.Keys.may_force axiam_python_sdk.Ssf.KeyLookup.fetch_jwks
    axiam_python_sdk.Ssf.KeyLookup.resolve_uri axiam_python_sdk.Ssf.KeyLookup.download
    axiam_python_sdk.Text.lower_equals
uncounted = refl

memory_mild :
    (jti : String) (s : MemoryReplayStore) (f : Failure)
    → (check_and_record 300 50 jti s).1 ≡ cannot f
    → Escapes f
    → ⊥
unfolding check_and_record
memory_mild jti s f h escapes = ground arith

poll_sets-EndsOk_example :
    EndsOk (poll_sets receiver (check_and_record 300 50) batch warm empty_store none)
poll_sets-EndsOk_example =
    poll_sets-EndsOk receiver (check_and_record 300 50) memory_mild batch warm empty_store none
