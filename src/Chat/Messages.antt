-- ===== src/Chat/Messages.antt =====
-- internal/chatcompletions/request.go: `validateMessage`, and the checks of tools, their choice and text contents.
use Prim.Native.String.{len}
use modelcairn.Base.{
  ℕ, ◌+◌, String, str_eq, append, Bool, true, false, ◌&&◌, ◌||◌, not, Option, none, some, List, [],
  ◌∷◌, ltb, leb, ◌==◌, length, all, if◌then◌else◌,
}
use modelcairn.Base.Text.{codes}
use modelcairn.Json.{Json, null, str, obj}
use modelcairn.Config.Patterns.{itoa}
use modelcairn.Chat.{Message, ToolCall}
use modelcairn.Chat.Shape.{Error, is_seen}

pub record TextPart : Type 0 where
  pub type : String
  pub text : String

-- What encoding/json decodes of a value with unknown fields refused: content parts, and a named tool choice,
-- by its type and the name of its function.
pub record Decoders : Type 0 where
  pub text_parts : Json → Option (List TextPart)
  pub named_choice : Json → Option (String × String)

pub data Checked {ℓ} (A : Type ℓ) : Type ℓ where
  accepted : A → Checked A
  rejected : Error → Checked A

abbrev pub invalid {ℓ} : {A : Type ℓ} → String → String → Checked A
invalid code param = rejected (record { code = code; param = param })

abbrev pub max_request_bytes : ℕ
max_request_bytes = 1048576

abbrev pub max_messages : ℕ
max_messages = 4096

abbrev pub max_tools : ℕ
max_tools = 128

abbrev pub capability_text : String
capability_text = "text"

abbrev pub capability_stream : String
capability_stream = "stream"

abbrev pub capability_tools : String
capability_tools = "tools"

abbrev pub capability_parallel_tools : String
capability_parallel_tools = "parallel-tools"

abbrev pub capability_developer_role : String
capability_developer_role = "developer-role"

-- `required[capability] = true`, on the keys of the map
abbrev pub put : String → List String → List String
put capability required = if is_seen capability required then required else capability ∷ required

abbrev is_function_code : ℕ → Bool
is_function_code c =
    (leb 65 c && leb c 90)
    || (leb 97 c && leb c 122)
    || (leb 48 c && leb c 57)
    || c == 95
    || c == 45

-- ^[A-Za-z0-9_-]{1,64}$
unfoldable pub is_function_name : String → Bool
unfolding codes
is_function_name s =
    let cs = codes s in leb 1 (length cs) && leb (length cs) 64 && all is_function_code cs

abbrev pub is_empty {ℓ} : {A : Type ℓ} → List A → Bool
is_empty [] = true
is_empty (x ∷ xs) = false

abbrev pub is_blank : String → Bool
is_blank s = str_eq s ""

-- No bytes, or those of `null`.
abbrev pub is_null : Option Json → Bool
is_null none = true
is_null (some null) = true
is_null (some _) = false

abbrev pub valid_parts : Option (List TextPart) → Bool
valid_parts none = false
valid_parts (some []) = false
valid_parts (some (p ∷ ps)) = all (λ q. str_eq q.type "text") (p ∷ ps)

-- The branches of `validateTextContent`'s value; a decoded string is always valid UTF-8.
abbrev pub valid_text_value : Decoders → Bool → Json → Bool
valid_text_value S nullable null = nullable
valid_text_value S nullable (str s) = true
valid_text_value S nullable v = valid_parts (S.text_parts v)

unfoldable pub valid_text_content : Decoders → Option Json → Bool → Bool
valid_text_content S none nullable = nullable
valid_text_content S (some v) nullable = valid_text_value S nullable v

unfoldable pub valid_json_object : Option Json → Bool
valid_json_object none = true
valid_json_object (some (obj fs)) = true
valid_json_object (some _) = false

abbrev pub known_choice : List String → Option (String × String) → Bool
known_choice tools none = false
known_choice tools (some (type, name)) = str_eq type "function" && is_seen name tools

-- `validateToolChoice(raw, tools) == nil`
unfoldable pub valid_tool_choice : Decoders → Json → List String → Bool
valid_tool_choice S null tools = false
valid_tool_choice S (str mode) tools =
    str_eq mode "none" || str_eq mode "auto" || str_eq mode "required"
valid_tool_choice S v tools = known_choice tools (S.named_choice v)

abbrev pub bad_call : ToolCall → Bool
bad_call call =
    is_blank call.id
    || ltb 256 (len call.id)
    || not (str_eq call.type "function")
    || not (is_function_name call.function.name)
    || ltb max_request_bytes (len call.function.arguments)

abbrev pub indexed : String → ℕ → String → String
indexed prefix i suffix = append prefix (append "[" (append (itoa i) (append "]" suffix)))

-- The loop over the tool calls of an assistant's message.
abbrev pub first_bad_call : String → ℕ → List ToolCall → Option Error
first_bad_call param i [] = none
first_bad_call param i (call ∷ calls) =
    let rest = first_bad_call param (i + 1) calls in
    if bad_call call
    then some (record { code = "invalid_value"; param = indexed (append param ".tool_calls") i "" })
    else rest

abbrev pub after_calls : List ToolCall → List String → Option Error → Checked (List String)
after_calls calls required (some e) = rejected e
after_calls calls required none =
    accepted (if is_empty calls then required else put capability_tools required)

-- `case "system", "user"`
abbrev pub validate_text_message : Decoders → Message → String → List String → Checked (List String)
validate_text_message S m param required =
    if not (valid_text_content S m.content false)
      || not (is_blank m.tool_call_id)
      || not (is_empty m.tool_calls)
    then invalid "invalid_value" param
    else accepted required

-- `case "assistant"`
abbrev pub validate_assistant : Decoders → Message → String → List String → Checked (List String)
validate_assistant S m param required =
    if not (valid_text_content S m.content true) || not (is_blank m.tool_call_id)
    then invalid "invalid_value" param
    else if is_null m.content && is_empty m.tool_calls
    then invalid "invalid_value" (append param ".content")
    else after_calls m.tool_calls required (first_bad_call param 0 m.tool_calls)

-- `case "tool"`
abbrev pub validate_tool_message : Decoders → Message → String → List String → Checked (List String)
validate_tool_message S m param required =
    if is_blank m.tool_call_id
      || ltb 256 (len m.tool_call_id)
      || not (valid_text_content S m.content false)
      || not (is_empty m.tool_calls)
    then invalid "invalid_value" param
    else accepted (put capability_tools required)

abbrev pub validate_role : Decoders → Message → String → List String → Checked (List String)
validate_role S m param required =
    if str_eq m.role "developer"
    then validate_text_message S m param (put capability_developer_role required)
    else if str_eq m.role "system" || str_eq m.role "user"
    then validate_text_message S m param required
    else if str_eq m.role "assistant"
    then validate_assistant S m param required
    else if str_eq m.role "tool"
    then validate_tool_message S m param required
    else invalid "invalid_value" (append param ".role")

-- `validateMessage`, with the capabilities that it adds
unfoldable pub validate_message : Decoders → Message → ℕ → List String → Checked (List String)
validate_message S m index required =
    let param = indexed "messages" index "" in
    if ltb 64 (len m.name)
    then invalid "invalid_value" (append param ".name")
    else validate_role S m param required
