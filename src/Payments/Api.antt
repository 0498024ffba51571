-- ===== src/Payments/Api.antt =====
-- apps/payments/src/api/payments.controller.ts: the messages of the gateway and the webhook of Stripe.
use Prim.Native.String.{◌++◌ as ◌<>◌}
use photer_api.Base.{
  String, Option, none, some, Action, Result, ok, throws, error, message, Exception,
}

-- What the queue is told of a message: it is done, or it is dropped.
pub data Delivery : Type 0 where
  acked nacked : Delivery

-- `createPaymentSession`, by how the command has ended.
unfoldable pub on_create_payment_session : {A : Type 0} → Result A → Delivery × Result A
on_create_payment_session (ok result) = (acked, ok result)
on_create_payment_session (throws e) = (nacked, throws e)

abbrev webhook_error : Exception → Exception
webhook_error e = error ("Webhook Error: " <> message e)

-- `handleStripeWebhook`: `raw_body` is a body that is a buffer, and `received` the answer.
unfoldable pub handle_stripe_webhook :
    {S A : Type 0}
    → (raw_body : Option String) → (handle : String → Action S A) → Action S (Unit {0})
handle_stripe_webhook none handle s = (throws (webhook_error (error "Invalid raw body")), s)
handle_stripe_webhook (some raw_body) handle s =
    let (r, s') = handle raw_body s in
    elim r [ ok a ↦ (ok tt, s') | throws e ↦ (throws (webhook_error e), s') ]
