-- ===== src/Chat/Shape.antt =====
-- internal/chatcompletions/request.go: `validateJSONShape`, on the tokens that `json.Decoder` gives.
use modelcairn.Base.{
  ℕ, zero, suc, ◌+◌, ◌*◌, String, str_eq, Bool, false, ◌||◌, Option, none, some, List, [], ◌∷◌, ℤ,
  ltb, length, if◌then◌else◌,
}

pub record Error : Type 0 where
  pub code : String
  pub param : String

-- What `decoder.Token` gives; `malformed` is an error, other than the end of the input.
pub data Token : Type 0 where
  open_object : Token
  close_object : Token
  open_array : Token
  close_array : Token
  text : String → Token
  null_token : Token
  bool_token : Bool → Token
  int_token : ℤ → Token
  fraction_token : String → Token
  malformed : Token

-- What is left of the tokens, or the error; `no_fuel` is no answer of the code.
pub data Walk : Type 0 where
  walked : List Token → Walk
  refused : Error → Walk
  no_fuel : Walk

abbrev pub max_json_depth : ℕ
max_json_depth = 64

abbrev pub invalid_json : Walk
invalid_json = refused (record { code = "invalid_json"; param = "" })

abbrev pub then_walk : Walk → (List Token → Walk) → Walk
then_walk (walked rest) next = next rest
then_walk (refused e) next = refused e
then_walk no_fuel next = no_fuel

abbrev pub is_seen : String → List String → Bool
is_seen name [] = false
is_seen name (n ∷ ns) = str_eq name n || is_seen name ns

-- The first token of a value, with what comes after an opening delimiter.
abbrev pub walk_token : (List Token → Walk) → (List Token → Walk) → List Token → Walk
walk_token fields items [] = invalid_json
walk_token fields items (open_object ∷ rest) = fields rest
walk_token fields items (open_array ∷ rest) = items rest
walk_token fields items (text s ∷ rest) = walked rest
walk_token fields items (null_token ∷ rest) = walked rest
walk_token fields items (bool_token b ∷ rest) = walked rest
walk_token fields items (int_token n ∷ rest) = walked rest
walk_token fields items (fraction_token s ∷ rest) = walked rest
walk_token fields items (close_object ∷ rest) = invalid_json
walk_token fields items (close_array ∷ rest) = invalid_json
walk_token fields items (malformed ∷ rest) = invalid_json

-- One turn of the loop over the fields, or what follows it: `next` continues after a name.
abbrev pub field_turn : (String → List Token → Walk) → List Token → Walk
field_turn next [] = invalid_json
field_turn next (text name ∷ rest) = next name rest
field_turn next (close_object ∷ rest) = walked rest
field_turn next (_ ∷ rest) = invalid_json

-- One turn of the loop over the items, or what follows it.
abbrev pub item_turn : (List Token → Walk) → List Token → Walk
item_turn item [] = invalid_json
item_turn item (close_array ∷ rest) = walked rest
item_turn item (close_object ∷ rest) = invalid_json
item_turn item (t ∷ rest) = item (t ∷ rest)

abbrev pub duplicate_field : String → Walk
duplicate_field name = refused (record { code = "duplicate_field"; param = name })

unfoldable mutual
  -- `walkJSON`
  pub walk_json : ℕ → ℕ → List Token → Walk
  walk_json zero depth tokens = no_fuel
  walk_json (suc n) depth tokens =
      if ltb max_json_depth depth
      then refused (record { code = "json_depth_exceeded"; param = "" })
      else walk_token (walk_fields n depth []) (walk_items n depth) tokens

  pub walk_fields : ℕ → ℕ → List String → List Token → Walk
  walk_fields zero depth seen tokens = no_fuel
  walk_fields (suc n) depth seen tokens =
      field_turn
        (λ name rest.
          if is_seen name seen
          then duplicate_field name
          else then_walk (walk_json n (depth + 1) rest) (walk_fields n depth (name ∷ seen)))
        tokens

  pub walk_items : ℕ → ℕ → List Token → Walk
  walk_items zero depth tokens = no_fuel
  walk_items (suc n) depth tokens =
      item_turn (λ rest. then_walk (walk_json n (depth + 1) rest) (walk_items n depth)) tokens

-- Each token is read once, in at most two calls.
abbrev pub enough : List Token → ℕ
enough tokens = 2 * length tokens + 2

abbrev pub at_end : Walk → Option Error
at_end (walked []) = none
at_end (walked (t ∷ rest)) = some (record { code = "invalid_json"; param = "" })
at_end (refused e) = some e
at_end no_fuel = some (record { code = ""; param = "" })

-- `validateJSONShape`
unfoldable pub validate_json_shape : List Token → Option Error
unfolding walk_json
validate_json_shape tokens = at_end (walk_json (enough tokens) 0 tokens)
