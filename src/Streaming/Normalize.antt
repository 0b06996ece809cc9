-- ===== src/Streaming/Normalize.antt =====
-- `normalizeChunk`, `usageTokens` and `validToolCallDelta` of internal/streaming/chat.go. The bytes of a
-- JSON text are read and written by a codec, which stands for encoding/json.
pub mod Alias
use Prim.Native.String.{len}
use modelcairn.Base.{
  ℕ, ◌+◌, ◌^◌, ℤ, pos, negsuc, String, Bool, true, false, Option, none, some, List, [], ◌∷◌, ◌++◌,
  ◌&&◌, ◌||◌, ltb, leb, not, str_eq, if◌then◌else◌, all, is_neg,
}
use modelcairn.Json.{Json, null, int, str, arr, obj, Items, items, Fields, end, field, get, put}
use modelcairn.Fault.{Error}
use modelcairn.Streaming.{err_invalid_sse}

-- `ValidateJSONDocument` followed by `json.Unmarshal` into any value, and `json.Marshal` of a map.
-- `same_key` is the match of a key with the name of a struct's field.
pub record Codec : Type 0 where
  pub decode : List ℕ → Option Json
  pub encode : Fields → List ℕ
  pub same_key : String → String → Bool

-- `json.Unmarshal` into a string: `null` leaves the empty one. A key that is absent is an error.
abbrev pub to_string : Option Json → Option String
to_string (some (str s)) = some s
to_string (some null) = some ""
to_string _ = none

-- `json.Unmarshal` into an int64: `null` leaves 0.
abbrev pub in_int64 : ℤ → Bool
in_int64 (pos n) = ltb n (2 ^ 63)
in_int64 (negsuc n) = ltb n (2 ^ 63)

abbrev pub to_int : Option Json → Option ℤ
to_int (some (int n)) = if in_int64 n then some n else none
to_int (some null) = some (pos 0)
to_int _ = none

-- `json.Unmarshal` into an `*int`: an error, `nil` or a number.
abbrev int_of : Json → Option (Option ℤ)
int_of null = some none
int_of (int n) = if in_int64 n then some (some n) else none
int_of _ = none

-- `json.Unmarshal` into a map that may have keys already, which it keeps.
abbrev put_all : Fields → Fields → Fields
put_all old end = old
put_all old (field k v rest) = put_all (put old k v) rest

abbrev merged : Option Fields → Fields → Fields
merged none fs = fs
merged (some old) fs = put_all old fs

abbrev map_of : Option Fields → Json → Option (Option Fields)
map_of old null = some none
map_of old (obj fs) = some (some (merged old fs))
map_of old _ = none

abbrev pub is : Option String → String → Bool
is (some s) t = str_eq s t
is none t = false

-- A string that is there and not empty.
abbrev non_empty : Option String → Bool
non_empty (some s) = not (str_eq s "")
non_empty none = false

abbrev non_empty_fields : Fields → Bool
non_empty_fields end = false
non_empty_fields (field k v rest) = true

-- A test of a key's value that holds where the key is absent.
abbrev if_present : Option Json → (Json → Bool) → Bool
if_present none p = true
if_present (some v) p = p v

abbrev has : Fields → String → Bool
has fs k = elim (get fs k) [ none ↦ false | some v ↦ true ]

abbrev short_name : Json → Bool
short_name v = elim (to_string (some v)) [
  | none ↦ false
  | some name ↦ not (str_eq name "") && leb (len name) 64
]

abbrev is_text : Json → Bool
is_text v = elim (to_string (some v)) [ none ↦ false | some s ↦ true ]

valid_function : Json → Bool
valid_function (obj fs) =
    non_empty_fields fs
    && (if_present (get fs "name") short_name
        && (if_present (get fs "arguments") is_text && (has fs "name" || has fs "arguments")))
valid_function _ = false

abbrev not_negative : Option ℤ → Bool
not_negative none = false
not_negative (some n) = not (is_neg n)

unfoldable pub valid_tool_call_delta : Json → Bool
unfolding valid_function
valid_tool_call_delta (obj fs) =
    non_empty_fields fs
    && (not_negative (to_int (get fs "index"))
        && (if_present (get fs "id") (λ v. non_empty (to_string (some v)))
            && (if_present (get fs "type") (λ v. is (to_string (some v)) "function")
                && (if_present (get fs "function") valid_function
                    && (has fs "id" || has fs "function")))))
valid_tool_call_delta _ = false

valid_tool_calls : Json → Bool
valid_tool_calls (arr calls) = all valid_tool_call_delta (items calls)
valid_tool_calls _ = false

valid_content : Json → Bool
valid_content null = true
valid_content v = is_text v

valid_delta : Option (Option Fields) → Bool
unfolding valid_tool_calls valid_content
valid_delta (some (some fs)) =
    if_present (get fs "role") (λ v. is (to_string (some v)) "assistant")
    && (if_present (get fs "content") valid_content
        && if_present (get fs "tool_calls") valid_tool_calls)
valid_delta _ = false

-- A pointer that is there, to a number that is not negative.
abbrev as_count : Option (Option ℤ) → Option ℕ
as_count (some (some (pos n))) = some n
as_count _ = none

abbrev is_count : Option ℕ → Bool
is_count none = false
is_count (some n) = true

-- Both counts, or neither, or an error.
pub data Usage : Type 0 where
  absent : Usage
  tokens : ℕ → ℕ → Usage
  invalid : Usage

abbrev usage_of : Option ℕ → Option ℕ → Usage
usage_of (some prompt) (some completion) = tokens prompt completion
usage_of _ _ = invalid

-- A chunk as it goes to the client, with the tokens that its usage reports.
pub record Normalized : Type 0 where
  pub payload : List ℕ
  pub input_tokens : Option ℕ
  pub output_tokens : Option ℕ

abbrev normalized : List ℕ → Usage → Option Normalized
normalized payload absent =
    some (record { payload = payload; input_tokens = none; output_tokens = none })
normalized payload (tokens prompt completion) =
    some (record { payload = payload; input_tokens = some prompt; output_tokens = some completion })
normalized payload invalid = none

module _ (codec : Codec) where
  -- A field of a struct that keeps the raw value: the last key that matches its name.
  raw_field : Fields → String → Option Json
  raw_field end name = none
  raw_field (field k v rest) name = elim (raw_field rest name) [
    | some w ↦ some w
    | none ↦ if codec.same_key k name then some v else none
  ]

  -- A field that each key that matches its name sets, one after the other, and where one may fail.
  int_field : Option ℤ → Fields → String → Option (Option ℤ)
  int_field n end name = some n
  int_field n (field k v rest) name = elim (codec.same_key k name) [
    | false ↦ int_field n rest name
    | true ↦ elim (int_of v) [ none ↦ none | some m ↦ int_field m rest name ]
  ]

  map_field : Option Fields → Fields → String → Option (Option Fields)
  map_field m end name = some m
  map_field m (field k v rest) name = elim (codec.same_key k name) [
    | false ↦ map_field m rest name
    | true ↦ elim (map_of m v) [ none ↦ none | some m' ↦ map_field m' rest name ]
  ]

  valid_choice : Json → Bool
  unfolding raw_field int_field map_field valid_delta
  valid_choice (obj fs) =
      is_count (as_count (int_field none fs "index"))
      && (valid_delta (map_field none fs "delta")
          && if_present (raw_field fs "finish_reason") valid_content)
  valid_choice _ = false

  valid_choices : Option Json → Bool
  unfolding valid_choice
  valid_choices (some (arr choices)) = all valid_choice (items choices)
  valid_choices _ = false

  usage_value : Json → Usage
  unfolding int_field
  usage_value null = absent
  usage_value (obj fs) =
      usage_of (as_count (int_field none fs "prompt_tokens"))
        (as_count (int_field none fs "completion_tokens"))
  usage_value _ = invalid

  pub usage_tokens : Fields → Usage
  unfolding usage_value
  usage_tokens object = elim (get object "usage") [ none ↦ absent | some v ↦ usage_value v ]

  -- The checks on a decoded chunk.
  pub valid_chunk : Fields → Bool
  unfolding valid_choices
  valid_chunk object =
      non_empty (to_string (get object "id"))
      && (is (to_string (get object "object")) "chat.completion.chunk"
          && valid_choices (get object "choices"))

  pub normalize_object : String → Fields → Option Normalized
  unfolding valid_chunk usage_tokens
  normalize_object alias object =
      if valid_chunk object
      then normalized (codec.encode (put object "model" (str alias))) (usage_tokens object)
      else none

  pub normalize_value : String → Option Json → Option Normalized
  unfolding normalize_object
  normalize_value alias (some (obj object)) = normalize_object alias object
  normalize_value alias _ = none

  -- `none` is `ErrInvalidSSE`.
  unfoldable pub normalize_chunk : List ℕ → String → Option Normalized
  unfolding normalize_value
  normalize_chunk payload alias = normalize_value alias (codec.decode payload)
