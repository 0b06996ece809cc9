-- ===== src/Router/Classify/Retry.antt =====
-- When an attempt may be retried.
use modelcairn.Base.{ℕ, Bool, false, Option, none, some, ◌==◌, ◌||◌, ◌&&◌, not, str_eq, ◌≡◌, arith}
use modelcairn.Fault.{Error, classified}
use modelcairn.Router.{Attempt}
use modelcairn.Router.Classify.{classify_attempt}

-- The answers after which another destination may be tried: the request was not delivered, its answer
-- was unusable, or the provider said that it is overloaded or failing for now.
abbrev pub may_retry : Option Error → ℕ → Bool
may_retry none status =
    status == 429 || status == 500 || status == 502 || status == 503 || status == 504
may_retry (some (classified code written)) status =
    (str_eq code "transport_error" && not written)
    || (not (str_eq code "transport_error")
        && (str_eq code "invalid_response" || str_eq code "response_too_large"))
may_retry (some _) status = false

module _ (parent_done total_done : Bool) (err : Option Error) (status : ℕ) (a : Attempt) where
  -- An attempt is retried exactly when neither context has ended and its answer allows it, and the
  -- attempt is marked retryable exactly then.
  pub classify-retry :
      a.retryable ≡ false
      → ((classify_attempt parent_done total_done err status a).retry
          ≡ (not parent_done && (not total_done && may_retry err status)))
        × ((classify_attempt parent_done total_done err status a).attempt.retryable
            ≡ (classify_attempt parent_done total_done err status a).retry)
  unfolding classify_attempt
  classify-retry h = ground arith

  -- Where a retry is refused a code is given, if the failure's own code is not empty.
  pub classify-keeps :
      ((classify_attempt parent_done total_done err status a).attempt.sequence ≡ a.sequence)
      × ((classify_attempt parent_done total_done err status a).attempt.destination_id
          ≡ a.destination_id)
      × ((classify_attempt parent_done total_done err status a).attempt.status_code ≡ a.status_code)
  unfolding classify_attempt
  classify-keeps = ground arith
