-- ===== src/Reactor/Dispatching/Once.antt =====
-- No nonce reaches a reactor's handler twice while the nonce store remembers it.
use axiam_python_sdk.Base.{
  ℕ, ◌+◌, ◌<◌, String, ◌≡◌, ◌≢◌, refl, sym, subst, true, Option, none, some, List, [], ◌∷◌, All,
  arith,
}
use axiam_python_sdk.Json.{Value, null, bool, int, float, str, arr, obj}
use axiam_python_sdk.Dict.{IsUnique}
use axiam_python_sdk.Runtime.{Runtime}
use axiam_python_sdk.Amqp.Replay.{NonceStore, check_and_record}
use axiam_python_sdk.Amqp.Replay.Window.{
  Remembers, check_and_record-Remembers, check_and_record_refuses, check_and_record_accepts,
}
use axiam_python_sdk.Reactor.Protocol.{ReactorEvent, Verdict, verified, rejected}
use axiam_python_sdk.Reactor.Dispatching.{
  Delivery, Context, Handled, decided, timed_out, failed, cancelled, World, handled, after_handler,
  dispatch_event, after_verdict, after_parse, dispatch_reactor_delivery, dispatch_all,
}

module _ (rt : Runtime) (ctx : Context) where
  module _ (P : NonceStore → Type 0) (w : World) (s : NonceStore) (holds : P s)
      (keeps : (nonce : String) → P (check_and_record nonce w.mono s).0) where
    event_keeps :
        (delivery : Delivery) (e : ReactorEvent) → P (dispatch_event rt ctx w delivery e s).0
    unfolding dispatch_event
    event_keeps delivery e = keeps e.nonce

    verdict_keeps : (delivery : Delivery) (v : Verdict) → P (after_verdict rt ctx w delivery s v).0
    verdict_keeps delivery (verified e) = event_keeps delivery e
    verdict_keeps delivery (rejected r) = holds

    parse_keeps : (delivery : Delivery) (v : Option Value) → P (after_parse rt ctx w delivery s v).0
    parse_keeps delivery (some (obj body)) = verdict_keeps delivery _
    parse_keeps delivery none = holds
    parse_keeps delivery (some null) = holds
    parse_keeps delivery (some (bool b)) = holds
    parse_keeps delivery (some (int n)) = holds
    parse_keeps delivery (some (float x)) = holds
    parse_keeps delivery (some (str t)) = holds
    parse_keeps delivery (some (arr xs)) = holds

    -- A property of the store that every check of a nonce keeps is kept by a dispatch.
    dispatch_keeps : (delivery : Delivery) → P (dispatch_reactor_delivery rt ctx w delivery s).0
    unfolding dispatch_reactor_delivery
    dispatch_keeps delivery = parse_keeps delivery (rt.loads delivery.body)

  -- Each dispatch of a list asks the store before a time.
  abbrev pub Before : ℕ → List (World × Delivery) → Type 0
  Before time deliveries = All (λ (w, delivery). w.mono < time) deliveries

  dispatch_all-Remembers :
      (nonce : String) (expiry : ℕ) (ds : List (World × Delivery)) (s : NonceStore)
      → Before expiry ds
      → Remembers nonce expiry s
      → Remembers nonce expiry (dispatch_all rt ctx ds s)
  unfolding dispatch_all
  dispatch_all-Remembers nonce expiry [] s early r = r
  dispatch_all-Remembers nonce expiry ((w, delivery) ∷ ds) s (soon, early) r =
      dispatch_all-Remembers nonce expiry ds _ early (
        dispatch_keeps (Remembers nonce expiry) w s r
          (λ other. check_and_record-Remembers nonce other expiry w.mono s soon r) delivery)

  module _ (w : World) (s : NonceStore) (delivery : Delivery) where
    -- A handled event's nonce was new, and was recorded.
    abbrev Checked : ReactorEvent → NonceStore → Type 0
    Checked e after =
        ((check_and_record e.nonce w.mono s).1 ≡ true)
        × (after ≡ (check_and_record e.nonce w.mono s).0)

    handler-handled :
        (e e' : ReactorEvent) (h : Handled)
        → handled (after_handler rt ctx w delivery e h) ≡ some e'
        → e ≡ e'
    unfolding after_handler
    handler-handled e e' (decided d) h = ground arith
    handler-handled e e' timed_out h = ground arith
    handler-handled e e' failed h = ground arith
    handler-handled e e' cancelled h = ground arith

    event-Checked :
        (e e' : ReactorEvent)
        → handled (dispatch_event rt ctx w delivery e s).1 ≡ some e'
        → Checked e' (dispatch_event rt ctx w delivery e s).0
    unfolding dispatch_event
    event-Checked e e' h =
        subst (λ x. Checked x (check_and_record e.nonce w.mono s).0)
          (handler-handled e e' (w.handler e) (ground arith)) (ground arith, refl)

    verdict-Checked :
        (e : ReactorEvent) (v : Verdict)
        → handled (after_verdict rt ctx w delivery s v).1 ≡ some e
        → Checked e (after_verdict rt ctx w delivery s v).0
    verdict-Checked e (verified e') h = event-Checked e' e h
    verdict-Checked e (rejected r) h = absurd (ground arith)

    parse-Checked :
        (e : ReactorEvent) (v : Option Value)
        → handled (after_parse rt ctx w delivery s v).1 ≡ some e
        → Checked e (after_parse rt ctx w delivery s v).0
    parse-Checked e (some (obj body)) h = verdict-Checked e _ h
    parse-Checked e none h = absurd (ground arith)
    parse-Checked e (some null) h = absurd (ground arith)
    parse-Checked e (some (bool b)) h = absurd (ground arith)
    parse-Checked e (some (int n)) h = absurd (ground arith)
    parse-Checked e (some (float x)) h = absurd (ground arith)
    parse-Checked e (some (str t)) h = absurd (ground arith)
    parse-Checked e (some (arr xs)) h = absurd (ground arith)

    dispatch-Checked :
        (e : ReactorEvent)
        → handled (dispatch_reactor_delivery rt ctx w delivery s).1 ≡ some e
        → Checked e (dispatch_reactor_delivery rt ctx w delivery s).0
    unfolding dispatch_reactor_delivery
    dispatch-Checked e h = parse-Checked e (rt.loads delivery.body) h

  -- While the nonce store remembers the nonce of an event that the handler was called with, whatever
  -- deliveries come in between, the handler is not called with an event of that nonce again.
  pub handled_once :
      (w : World) (delivery : Delivery) (s : NonceStore) (e : ReactorEvent)
      (between : List (World × Delivery)) (w' : World) (delivery' : Delivery) (e' : ReactorEvent)
      → IsUnique s.seen
      → Before (w.mono + s.ttl_seconds) between
      → w'.mono < w.mono + s.ttl_seconds
      → handled (dispatch_reactor_delivery rt ctx w delivery s).1 ≡ some e
      → handled
          (dispatch_reactor_delivery rt ctx w' delivery'
            (dispatch_all rt ctx between (dispatch_reactor_delivery rt ctx w delivery s).0)).1
        ≡ some e'
      → e'.nonce ≢ e.nonce
  handled_once w delivery s e between w' delivery' e' unique early soon first second same =
      let (new, after) = dispatch-Checked w s delivery e first in
      let expiry = w.mono + s.ttl_seconds in
      let t = dispatch_all rt ctx between (dispatch_reactor_delivery rt ctx w delivery s).0 in
      let (new', after') = dispatch-Checked w' t delivery' e' second in
      let r : Remembers e.nonce expiry t = dispatch_all-Remembers e.nonce expiry between _ early (
        subst (Remembers e.nonce expiry) (sym after)
          (check_and_record_accepts e.nonce w.mono s unique new)) in
      cc (check_and_record_refuses e.nonce expiry w'.mono t soon r, new', same)
