-- ===== src/Messaging/Settles.antt =====
-- About dispositions that return.
use social_sentiment.Broker.{Broker, IsFaithful, Message, History, ◌>>=◌, pure}
use social_sentiment.Messaging.{
  dead_letter_message, retry_or_dead_letter, resend, processing_attempt, dead_lettered, requeued,
}
use social_sentiment.Prelude.{List, String}
use social_sentiment.Outcome.{Error}
use social_sentiment.Broker.Triples.{Triple, Triple-bind, Triple-if, Triple-pure}
use social_sentiment.Broker.Settled.{AllSettled, Settled, Triple-call, Triple-acks}
use social_sentiment.Prelude.Int.{leb_ℤ, pos}

module _ (b : Broker) (faithful : IsFaithful b) (held : List Message) (message : Message)
    (input_queue : String) (error : Error) where
  pub dead_letter-Settles :
      {E : History → Type 0}
      → Triple
          (AllSettled b held)
          E
          (dead_letter_message b message input_queue error)
          (λ a h. Settled b h message)
  unfolding dead_letter_message
  dead_letter-Settles =
      Triple-bind _ _ (Triple-call b faithful held _) (λ a.
        Triple-bind _ _ (Triple-acks b faithful held message) (λ n. Triple-pure tt (λ h s. s)))

  resend-Settles :
      {E : History → Type 0}
      → Triple
          (AllSettled b held)
          E
          (resend b message input_queue error)
          (λ a h. Settled b h message)
  unfolding resend
  resend-Settles =
      Triple-bind _ _ (Triple-call b faithful held _) (λ a.
        Triple-bind _ _ (Triple-acks b faithful held message) (λ n. Triple-pure tt (λ h s. s)))

  pub retry-Settles :
      {E : History → Type 0}
      → Triple
          (AllSettled b held)
          E
          (retry_or_dead_letter b message input_queue error)
          (λ a h. Settled b h message)
  unfolding retry_or_dead_letter
  retry-Settles =
      Triple-if (leb_ℤ (pos 1) (processing_attempt b message))
        (dead_letter_message b message input_queue error >>= λ _. pure dead_lettered)
        (resend b message input_queue error >>= λ _. pure requeued)
        (λ e. Triple-bind _ _ dead_letter-Settles (λ a. Triple-pure dead_lettered (λ h s. s)))
        (λ e. Triple-bind _ _ resend-Settles (λ a. Triple-pure requeued (λ h s. s)))
