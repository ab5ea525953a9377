-- ===== src/Reactor/Dispatching/Answers.antt =====
-- When a reactor publishes an answer, and how it settles a delivery.
use axiam_python_sdk.Base.{◌≡◌, ◌==◌, true, false, ◌&&◌, not, some}
use axiam_python_sdk.Json.{obj, Fields}
use axiam_python_sdk.Text.{is_blank}
use axiam_python_sdk.Runtime.{Runtime}
use axiam_python_sdk.Amqp.Replay.{NonceStore, check_and_record}
use axiam_python_sdk.Reactor.Protocol.{ReactorEvent, verified, verify_event, require_mfa_allowed}
use axiam_python_sdk.Reactor.Dispatching.{
  intercept, ReactorDecision, Delivery, Context, decided, World, Published, is_late,
  mutates_nothing, abstains, reply_body, property_correlation,
}

module _ (rt : Runtime) (ctx : Context) (w : World) (delivery : Delivery) where
  -- A decision that is sent, and the message that carries it.
  pub record Sent (e : ReactorEvent) (d : ReactorDecision) (p : Published) : Type 0 where
    pub speaks : abstains d.kind ≡ false
    pub changes : mutates_nothing d ≡ false
    pub mfa_fits : (d.require_mfa && not (require_mfa_allowed e.event)) ≡ false
    pub in_time : is_late w.ready w.started e.timeout_ms ≡ false
    pub addressed : delivery.reply_to ≡ some p.reply_to
    pub named : is_blank p.reply_to ≡ false
    pub correlated :
        property_correlation rt ctx delivery.correlation_id e.correlation_id ≡ p.correlation_id
    pub signed : reply_body rt ctx w e d ≡ p.body

  -- A delivery that is answered: a genuine event of the tenant that the store has not seen, which the
  -- handler decided in a mode that answers, with a decision that is sent.
  pub record Answered (s : NonceStore) (e : ReactorEvent) (p : Published) : Type 0 where
    pub body : Fields
    pub decision : ReactorDecision
    pub parsed : rt.loads delivery.body ≡ some (obj body)
    pub genuine : verify_event rt body ctx.signing_key w.now ctx.skew ≡ verified e
    pub unseen : (check_and_record e.nonce w.mono s).1 ≡ true
    pub ours : (e.tenant_id == ctx.tenant_id) ≡ true
    pub answers : ctx.mode ≡ intercept
    pub handled : w.handler e ≡ decided decision
    pub sent : Sent e decision p
