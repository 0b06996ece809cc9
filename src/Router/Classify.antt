-- ===== src/Router/Classify.antt =====
-- `classifyAttempt` of internal/router/engine.go.
pub mod Retry
use modelcairn.Base.{
  ℕ, String, Bool, true, false, Option, none, some, ◌==◌, ◌||◌, str_eq, if◌then◌else◌,
}
use modelcairn.Fault.{Error, classified, deadline_exceeded}
use modelcairn.Router.{Attempt}

-- `retry`, `terminalCode`, and the attempt as it was left.
pub record Classified : Type 0 where
  pub retry : Bool
  pub code : String
  pub attempt : Attempt

classify_failure : String → Bool → Attempt → Classified
classify_failure code written attempt =
    let a = record attempt { error_class = code } in
    if str_eq code "transport_error"
    then (if written
        then record {
          retry = false;
          code = "indeterminate_upstream";
          attempt = record a { outcome = "indeterminate" };
        }
        else record {
          retry = true;
          code = "";
          attempt = record a { retryable = true; fallback_reason = "transport_pre_send" };
        })
    else if str_eq code "invalid_response" || str_eq code "response_too_large"
    then record {
      retry = true;
      code = "";
      attempt = record a { retryable = true; fallback_reason = code };
    }
    else record { retry = false; code = code; attempt = a }

classify_error : Error → Attempt → Classified
unfolding classify_failure
classify_error (classified code written) attempt = classify_failure code written attempt
classify_error deadline_exceeded attempt = record {
  retry = false;
  code = "indeterminate_upstream";
  attempt = record attempt { error_class = "attempt_timeout"; outcome = "indeterminate" };
}
classify_error _ attempt = record {
  retry = false;
  code = "upstream_error";
  attempt = record attempt { error_class = "unclassified_error" };
}

classify_status : ℕ → Attempt → Classified
classify_status status attempt =
    let a = record attempt { error_class = "provider_status" } in
    if status == 429
    then record {
      retry = true;
      code = "";
      attempt = record a { retryable = true; fallback_reason = "rate_limited" };
    }
    else if status == 500 || status == 502 || status == 503 || status == 504
    then record {
      retry = true;
      code = "";
      attempt = record a { retryable = true; fallback_reason = "provider_transient" };
    }
    else record { retry = false; code = "provider_error"; attempt = a }

classify_answer : Option Error → ℕ → Attempt → Classified
unfolding classify_error classify_status
classify_answer (some e) status attempt = classify_error e attempt
classify_answer none status attempt = classify_status status attempt

unfoldable pub classify_attempt : Bool → Bool → Option Error → ℕ → Attempt → Classified
unfolding classify_answer
classify_attempt parent_done total_done execute_err status attempt =
    if parent_done
    then record {
      retry = false;
      code = "request_cancelled";
      attempt = record attempt { error_class = "client_cancelled"; outcome = "cancelled" };
    }
    else if total_done
    then record {
      retry = false;
      code = "total_timeout";
      attempt = record attempt { error_class = "total_timeout"; outcome = "indeterminate" };
    }
    else classify_answer execute_err status attempt
