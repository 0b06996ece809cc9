-- ===== src/Chat/Fuel.antt =====
-- The fuel of `validateJSONShape`'s model is enough for every list of tokens.
use modelcairn.Base.{
  ℕ, zero, suc, ◌+◌, ◌*◌, ◌≤◌, ◌<◌, List, [], ◌∷◌, ◌≢◌, arith, length, String, ltb, if_elim,
}
use modelcairn.Chat.Shape.{
  Token, open_object, close_object, open_array, close_array, text, null_token, bool_token,
  int_token, fraction_token, malformed, is_seen, enough, Walk, walked, refused, no_fuel, then_walk,
  walk_token, walk_json, walk_fields, walk_items, max_json_depth,
}

-- A walk over `n` tokens that has an answer, and, where it accepts, leaves fewer.
abbrev IsShorter : ℕ → Walk → Type 0
IsShorter n (walked rest) = length rest < n
IsShorter n (refused e) = Unit
IsShorter n no_fuel = ⊥

abbrev HasFuel : ℕ → Type 0
HasFuel n =
    ((d : ℕ) (ts : List Token) → 2 * length ts + 1 ≤ n → IsShorter (length ts) (walk_json n d ts))
    × ((d : ℕ) (seen : List String) (ts : List Token)
        → 2 * length ts + 2 ≤ n
        → IsShorter (length ts) (walk_fields n d seen ts))
    × ((d : ℕ) (ts : List Token)
        → 2 * length ts + 2 ≤ n
        → IsShorter (length ts) (walk_items n d ts))

IsShorter-le : (m n : ℕ) (w : Walk) → m ≤ n → IsShorter m w → IsShorter n w
IsShorter-le m n (walked rest) h k = omega (arith, h, k)
IsShorter-le m n (refused e) h k = tt
IsShorter-le m n no_fuel h k = absurd k

then_walk-IsShorter :
    (m n : ℕ) (w : Walk) (next : List Token → Walk)
    → IsShorter m w
    → ((rest : List Token) → length rest < m → IsShorter n (next rest))
    → IsShorter n (then_walk w next)
then_walk-IsShorter m n (walked rest) next h k = k rest h
then_walk-IsShorter m n (refused e) next h k = tt
then_walk-IsShorter m n no_fuel next h k = absurd h

module _ (n : ℕ) (fuel : HasFuel n) where
  token_fuel :
      (d : ℕ) (ts : List Token)
      → 2 * length ts + 1 ≤ suc n
      → IsShorter (length ts) (walk_token (walk_fields n d []) (walk_items n d) ts)
  token_fuel d [] h = tt
  token_fuel d (open_object ∷ ts) h =
      IsShorter-le (length ts) (suc (length ts)) _ (omega arith) (fuel.1 d [] ts (omega (arith, h)))
  token_fuel d (open_array ∷ ts) h =
      IsShorter-le (length ts) (suc (length ts)) _ (omega arith) (fuel.2 d ts (omega (arith, h)))
  token_fuel d (close_object ∷ ts) h = tt
  token_fuel d (close_array ∷ ts) h = tt
  token_fuel d (text s ∷ ts) h = omega arith
  token_fuel d (null_token ∷ ts) h = omega arith
  token_fuel d (bool_token b ∷ ts) h = omega arith
  token_fuel d (int_token i ∷ ts) h = omega arith
  token_fuel d (fraction_token s ∷ ts) h = omega arith
  token_fuel d (malformed ∷ ts) h = tt

  value_fuel :
      (d : ℕ) (ts : List Token)
      → 2 * length ts + 1 ≤ suc n
      → IsShorter (length ts) (walk_json (suc n) d ts)
  unfolding walk_json
  value_fuel d ts h =
      if_elim (IsShorter (length ts)) (ltb max_json_depth d) (λ k. tt) (λ k. token_fuel d ts h)

  fields_fuel :
      (d : ℕ) (seen : List String) (ts : List Token)
      → 2 * length ts + 2 ≤ suc n
      → IsShorter (length ts) (walk_fields (suc n) d seen ts)
  unfolding walk_json
  fields_fuel d seen [] h = tt
  fields_fuel d seen (text name ∷ ts) h =
      if_elim (IsShorter (suc (length ts))) (is_seen name seen) (λ k. tt)
        (λ k.
          then_walk-IsShorter (length ts) (suc (length ts)) (walk_json n (d + 1) ts)
            (walk_fields n d (name ∷ seen)) (fuel.0 (d + 1) ts (omega (arith, h)))
            (λ rest m.
              IsShorter-le (length rest) (suc (length ts)) _ (omega (arith, m))
                (fuel.1 d (name ∷ seen) rest (omega (arith, h, m)))))
  fields_fuel d seen (close_object ∷ ts) h = omega arith
  fields_fuel d seen (open_object ∷ ts) h = tt
  fields_fuel d seen (open_array ∷ ts) h = tt
  fields_fuel d seen (close_array ∷ ts) h = tt
  fields_fuel d seen (null_token ∷ ts) h = tt
  fields_fuel d seen (bool_token b ∷ ts) h = tt
  fields_fuel d seen (int_token i ∷ ts) h = tt
  fields_fuel d seen (fraction_token s ∷ ts) h = tt
  fields_fuel d seen (malformed ∷ ts) h = tt

  item_fuel :
      (d : ℕ) (ts : List Token)
      → 2 * length ts + 2 ≤ suc n
      → IsShorter (length ts) (then_walk (walk_json n (d + 1) ts) (walk_items n d))
  item_fuel d ts h =
      then_walk-IsShorter (length ts) (length ts) (walk_json n (d + 1) ts) (walk_items n d)
        (fuel.0 (d + 1) ts (omega (arith, h)))
        (λ rest m.
          IsShorter-le (length rest) (length ts) _ (omega (arith, m))
            (fuel.2 d rest (omega (arith, h, m))))

  items_fuel :
      (d : ℕ) (ts : List Token)
      → 2 * length ts + 2 ≤ suc n
      → IsShorter (length ts) (walk_items (suc n) d ts)
  unfolding walk_json
  items_fuel d [] h = tt
  items_fuel d (close_array ∷ ts) h = omega arith
  items_fuel d (close_object ∷ ts) h = tt
  items_fuel d (t ∷ ts) h = item_fuel d (t ∷ ts) h

fuel_all : (n : ℕ) → HasFuel n
unfolding walk_json
fuel_all zero = (
  λ d ts h. absurd (omega (arith, h)),
  λ d seen ts h. absurd (omega (arith, h)),
  λ d ts h. absurd (omega (arith, h)),
)
fuel_all (suc n) =
    let fuel = fuel_all n in (value_fuel n fuel, fields_fuel n fuel, items_fuel n fuel)

IsShorter-answer : (n : ℕ) (w : Walk) → IsShorter n w → w ≢ no_fuel
IsShorter-answer n (walked rest) h e = ground arith
IsShorter-answer n (refused e) h k = ground arith
IsShorter-answer n no_fuel h e = absurd h

-- The walk over a list of tokens, with the fuel that `validate_json_shape` gives it, answers at every depth: it never runs out of fuel.
pub walk_json-total : (d : ℕ) (tokens : List Token) → walk_json (enough tokens) d tokens ≢ no_fuel
walk_json-total d tokens =
    IsShorter-answer (length tokens) (walk_json (enough tokens) d tokens)
      ((fuel_all (enough tokens)).0 d tokens (omega arith))
