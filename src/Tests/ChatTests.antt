-- ===== src/Tests/ChatTests.antt =====
-- A nested document, one with a repeated name, and a request with a tool.
use modelcairn.Base.{String, true, false, none, some, List, [], ◌∷◌, ◌≡◌, ◌≢◌, ◌↔◌, refl, pos, ◌≤◌}
use modelcairn.Base.Text.{codes, str_lt}
use modelcairn.Base.Sort.{sort}
use modelcairn.Json.{Json, str, obj, end}
use modelcairn.Config.Patterns.{is_alias, itoa}
use modelcairn.Chat.{Message, Tool, Request}
use modelcairn.Chat.Shape.{
  Token, open_object, close_object, open_array, close_array, text, int_token, enough, no_fuel,
  walk_json, validate_json_shape,
}
use modelcairn.Chat.Tokens.{spell, depth, IsUnambiguous}
use modelcairn.Chat.Accepts.{validate_json_shape-accepts}
use modelcairn.Chat.Fuel.{walk_json-total}
use modelcairn.Chat.Messages.{
  Decoders, accepted, rejected, is_function_name, valid_text_content, valid_json_object,
  valid_tool_choice, validate_message,
}
use modelcairn.Chat.Validate.{validate_messages, validate_tools, validate_request}
use modelcairn.Chat.Required.{IsRequired, validate_request-IsRequired}

abbrev nested : List Token
nested =
    open_object
    ∷ text "a"
    ∷ open_array
    ∷ int_token (pos 1)
    ∷ close_array
    ∷ text "b"
    ∷ text "x"
    ∷ close_object
    ∷ []

nested_accepted : validate_json_shape nested ≡ none
unfolding validate_json_shape walk_json
nested_accepted = refl

repeated_refused :
    validate_json_shape (
      open_object ∷ text "a" ∷ int_token (pos 1) ∷ text "a" ∷ int_token (pos 2) ∷ close_object ∷ [])
    ≡ some (record { code = "duplicate_field"; param = "a" })
unfolding validate_json_shape walk_json
repeated_refused = refl

validate_json_shape-accepts_example :
    (validate_json_shape nested ≡ none)
    ↔ ((v : Json) × (nested ≡ spell v []) × (depth v ≤ 64) × IsUnambiguous v)
validate_json_shape-accepts_example = validate_json_shape-accepts nested

walk_json-total_example : walk_json (enough nested) 3 nested ≢ no_fuel
walk_json-total_example = walk_json-total 3 nested

-- No content is a list of parts, and no choice names a tool.
abbrev pub plain : Decoders
plain = record { text_parts = λ v. none; named_choice = λ v. none }

abbrev greeting : Message
greeting = record {
  role = "developer";
  content = some (str "Hello");
  name = "";
  tool_call_id = "";
  tool_calls = [];
}

abbrev clock : Tool
clock = record {
  type = "function";
  function = record {
    name = "read_clock";
    description = "";
    parameters = some (obj end);
    strict = none;
  };
}

abbrev pub request : Request
request = record {
  model = "large";
  messages = greeting ∷ [];
  stream = true;
  stream_options = none;
  tools = clock ∷ [];
  tool_choice = some (str "auto");
  parallel_tool_calls = some false;
  temperature = some (pos 1);
  top_p = none;
  max_tokens = some (pos 100);
  max_completion_tokens = none;
}

abbrev capabilities : List String
capabilities = "developer-role" ∷ "stream" ∷ "text" ∷ "tools" ∷ []

request_accepted : validate_request plain request ≡ accepted capabilities
unfolding validate_request validate_messages validate_tools validate_message is_function_name
    valid_text_content valid_json_object valid_tool_choice is_alias codes str_lt sort
request_accepted = refl

tool_without_call_refused :
    validate_request plain (record request { messages = record greeting { role = "tool" } ∷ [] })
    ≡ rejected (record { code = "invalid_value"; param = "messages[0]" })
unfolding validate_request validate_messages validate_tools validate_message is_function_name
    valid_text_content valid_json_object valid_tool_choice is_alias codes str_lt sort itoa
tool_without_call_refused = refl

validate_request-IsRequired_example : IsRequired request capabilities
validate_request-IsRequired_example =
    validate_request-IsRequired plain request capabilities request_accepted
