-- ===== src/Tests/Polling.antt =====
-- A whole poll on concrete answers.
use axiam_python_sdk.Base.{true, false, none, some, if◌then◌else◌, eqb}
use axiam_python_sdk.Base.Int.{pos}
use axiam_python_sdk.Json.{Value, obj, str, bool, field, end}
use axiam_python_sdk.Retry.{Error}
use axiam_python_sdk.Ssf.{auth, other}
use axiam_python_sdk.Ssf.Keys.{Response}
use axiam_python_sdk.Ssf.Polling.{Answered, broken, answered, PollWorld, PollResult, poll_body}
use axiam_python_sdk.Tests.Receiver.{collected, world}

abbrev reply : Response
reply = record {
  status = 200;
  body = some (
      obj (
        field "sets"
          (obj (field "a" (str "h.a.s") (field "x" (str "h.b.s") (field "b" (str "h.b.s") end))))
          (field "moreAvailable" (bool true) end)));
}

-- the connection breaks, and the second attempt is answered
abbrev poll_world : PollWorld
poll_world = record {
  answer = λ n. if eqb n 1 then broken "reset" else answered reply;
  poll_error = λ r. auth "refused";
  seen_as = λ f. Error.other "refused";
  rand = λ n. pos 0;
  telemetry = false;
  judged_in = λ n. world;
}

abbrev result : PollResult
result = record { collected = collected; more_available = true; unjudged_error = none }
