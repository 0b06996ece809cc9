-- ===== src/Chat/Validate.antt =====
-- internal/chatcompletions/request.go: `validateRequest` and `Parse`.
use Prim.Native.String.{len}
use modelcairn.Base.{
  ℕ, ◌+◌, ◌*◌, ◌^◌, String, str_eq, Bool, true, false, ◌&&◌, ◌||◌, not, Option, none, some, List,
  [], ◌∷◌, ltb, length, ℤ, pos, leb_ℤ, is_neg, is_some, first, if◌then◌else◌,
}
use modelcairn.Base.Text.{str_lt}
use modelcairn.Base.Sort.{sort}
use modelcairn.Json.{Json}
use modelcairn.Config.Patterns.{is_alias}
use modelcairn.Chat.{Float, Message, Tool, Request}
use modelcairn.Chat.Shape.{Error, Token, is_seen, validate_json_shape}
use modelcairn.Chat.Messages.{
  Decoders, Checked, accepted, rejected, invalid, max_request_bytes, max_messages, max_tools,
  capability_text, capability_stream, capability_tools, capability_parallel_tools, put,
  is_function_name, is_empty, valid_json_object, valid_tool_choice, indexed, validate_message,
}

abbrev pub then_check {ℓ κ} : {A : Type ℓ} {B : Type κ} → Checked A → (A → Checked B) → Checked B
then_check (accepted x) next = next x
then_check (rejected e) next = rejected e

-- The loop over the messages.
unfoldable pub validate_messages : Decoders → ℕ → List Message → List String → Checked (List String)
validate_messages S i [] required = accepted required
validate_messages S i (m ∷ ms) required =
    then_check (validate_message S m i required) (validate_messages S (i + 1) ms)

-- One turn of the loop over the tools, up to `seen`.
abbrev pub tool_checks : ℕ → Tool → List String → List (Bool × Error)
tool_checks i tool seen =
    ((
      not (str_eq tool.type "function") || not (is_function_name tool.function.name),
      record { code = "invalid_value"; param = indexed "tools" i "" },
    )
      ∷ (
        is_seen tool.function.name seen,
        record { code = "duplicate_tool"; param = indexed "tools" i ".function.name" },
      )
      ∷ (
        ltb 4096 (len tool.function.description)
            || not (valid_json_object tool.function.parameters),
        record { code = "invalid_value"; param = indexed "tools" i ".function.parameters" },
      )
      ∷ [])

abbrev pub tool_error : ℕ → Tool → List String → Option Error
tool_error i tool seen = first (tool_checks i tool seen)

abbrev pub or_go_on {ℓ} : {A : Type ℓ} → Option Error → Checked A → Checked A
or_go_on none next = next
or_go_on (some e) next = rejected e

-- The loop over the tools, with the names that it has seen.
unfoldable pub validate_tools : ℕ → List Tool → List String → Checked (List String)
validate_tools i [] seen = accepted seen
validate_tools i (tool ∷ tools) seen =
    or_go_on (tool_error i tool seen) (validate_tools (i + 1) tools (tool.function.name ∷ seen))

abbrev pub bad_choice : Decoders → Request → Option Json → List String → Bool
bad_choice S r none seen = false
bad_choice S r (some choice) seen = is_empty r.tools || not (valid_tool_choice S choice seen)

-- 2^1074 units are 1.
abbrev pub out_of_range : ℕ → Option Float → Bool
out_of_range limit none = false
out_of_range limit (some x) = is_neg x || not (leb_ℤ x (pos (limit * 2 ^ 1074)))

abbrev pub below_one : Option ℤ → Bool
below_one none = false
below_one (some n) = not (leb_ℤ (pos 1) n)

-- The checks after the tools, in their order.
abbrev pub option_checks : Decoders → Request → List String → List (Bool × Error)
option_checks S r seen =
    ((bad_choice S r r.tool_choice seen, record { code = "invalid_value"; param = "tool_choice" })
      ∷ (
        is_some r.parallel_tool_calls && is_empty r.tools,
        record { code = "invalid_value"; param = "parallel_tool_calls" },
      )
      ∷ (out_of_range 2 r.temperature, record { code = "invalid_value"; param = "temperature" })
      ∷ (out_of_range 1 r.top_p, record { code = "invalid_value"; param = "top_p" })
      ∷ (
        is_some r.max_tokens && is_some r.max_completion_tokens,
        record { code = "conflicting_parameters"; param = "max_tokens" },
      )
      ∷ (below_one r.max_tokens, record { code = "invalid_value"; param = "max_tokens" })
      ∷ (
        below_one r.max_completion_tokens,
        record { code = "invalid_value"; param = "max_completion_tokens" },
      )
      ∷ [])

abbrev pub option_error : Decoders → Request → List String → Option Error
option_error S r seen = first (option_checks S r seen)

abbrev pub is_true : Option Bool → Bool
is_true (some true) = true
is_true _ = false

abbrev pub put_if : Bool → String → List String → List String
put_if true capability required = put capability required
put_if false capability required = required

-- The capabilities that the options after the tools add.
abbrev pub option_capabilities : Request → List String → List String
option_capabilities r required = put_if (is_true r.parallel_tool_calls) capability_parallel_tools (
    put_if (is_some r.tool_choice) capability_tools
      (put_if (not (is_empty r.tools)) capability_tools required))

abbrev pub validate_options : Decoders → Request → List String → List String → Checked (List String)
validate_options S r required seen =
    or_go_on (option_error S r seen) (accepted (sort str_lt (option_capabilities r required)))

abbrev pub validate_stream : Decoders → Request → List String → Checked (List String)
validate_stream S r required =
    if not r.stream && is_some r.stream_options
    then invalid "invalid_value" "stream_options"
    else if ltb max_tools (length r.tools)
    then invalid "invalid_value" "tools"
    else then_check (validate_tools 0 r.tools [])
        (validate_options S r (put_if r.stream capability_stream required))

-- `validateRequest`: the required capabilities, in order
unfoldable pub validate_request : Decoders → Request → Checked (List String)
validate_request S r =
    if not (is_alias r.model)
    then invalid "invalid_value" "model"
    else if is_empty r.messages || ltb max_messages (length r.messages)
    then invalid "invalid_value" "messages"
    else then_check (validate_messages S 0 r.messages (capability_text ∷ [])) (validate_stream S r)

-- What `Parse` calls of encoding/json and unicode/utf8 on the bytes of a request: whether they are UTF-8, their
-- tokens, and the request that a strict decoder reads, and whether nothing follows it.
pub record Reader : Type 0 where
  pub utf8_valid : List ℕ → Bool
  pub tokens : List ℕ → List Token
  pub request : List ℕ → Option Request
  pub ends : List ℕ → Bool

pub record Parsed : Type 0 where
  pub request : Request
  pub capabilities : List String

-- `ValidateJSONDocument`
unfoldable pub validate_json_document : Reader → List ℕ → Option Error
validate_json_document R bytes =
    if not (R.utf8_valid bytes)
    then some (record { code = "invalid_json"; param = "" })
    else validate_json_shape (R.tokens bytes)

abbrev pub with_capabilities : Request → Checked (List String) → Checked Parsed
with_capabilities r (rejected e) = rejected e
with_capabilities r (accepted caps) = accepted (record { request = r; capabilities = caps })

abbrev pub parse_decoded : Reader → Decoders → List ℕ → Option Request → Checked Parsed
parse_decoded R S bytes none = invalid "invalid_request" ""
parse_decoded R S bytes (some r) =
    if not (R.ends bytes)
    then invalid "invalid_json" ""
    else with_capabilities r (validate_request S r)

-- `Parse`
unfoldable pub parse : Reader → Decoders → List ℕ → Checked Parsed
unfolding validate_json_document
parse R S bytes =
    if is_empty bytes
    then invalid "invalid_request" ""
    else if ltb max_request_bytes (length bytes)
    then invalid "request_too_large" ""
    else or_go_on (validate_json_document R bytes) (parse_decoded R S bytes (R.request bytes))
