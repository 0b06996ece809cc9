-- ===== src/Fault.antt =====
-- Error values, as far as `errors.Is` and `errors.As` tell them apart.
use modelcairn.Base.{String, Bool}

-- A failure that implements `ClassifiedFailure`, with its code and whether the request was written; the
-- two context errors; the end of a stream; and any other error, with its text.
pub data Error : Type 0 where
  classified : String → Bool → Error
  context_canceled : Error
  deadline_exceeded : Error
  eof : Error
  other : String → Error
