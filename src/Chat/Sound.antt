-- ===== src/Chat/Sound.antt =====
-- What is accepted is the shape of one unambiguous value of at most the permitted depth.
use modelcairn.Base.{
  ℕ, zero, suc, ◌+◌, ◌≤◌, String, List, [], ◌∷◌, ◌≡◌, refl, ap, ◌∙◌, arith, ltb, if_elim,
  not_ltb→le,
}
use modelcairn.Json.{
  Json, null, bool, int, fraction, str, arr, obj, Items, nil, cons, Fields, end, field,
}
use modelcairn.Chat.Shape.{
  Token, open_object, close_object, open_array, close_array, text, null_token, bool_token,
  int_token, fraction_token, malformed, is_seen, Walk, walked, refused, no_fuel, then_walk,
  walk_token, walk_json, walk_fields, walk_items, max_json_depth,
}
use modelcairn.Chat.Tokens.{
  spell, spell_items, spell_fields, depth, depth_items, depth_fields, IsUnambiguous, AreUnambiguous,
  AreNew,
}

rest_of : Walk → List Token
rest_of (walked rest) = rest
rest_of (refused e) = []
rest_of no_fuel = []

pub walked-inj : (xs ys : List Token) → walked xs ≡ walked ys → xs ≡ ys
unfolding rest_of
walked-inj xs ys h = ap rest_of h

-- The tokens before `rest` spell a value.
abbrev pub IsValue : ℕ → List Token → List Token → Type 0
IsValue d tokens rest = (v : Json) × (tokens ≡ spell v rest) × (d + depth v ≤ 64) × IsUnambiguous v

abbrev IsItems : ℕ → List Token → List Token → Type 0
IsItems d tokens rest =
    (xs : Items) × (tokens ≡ spell_items xs (close_array ∷ rest))
    × (d + depth_items xs ≤ 64)
    × AreUnambiguous xs

abbrev IsFields : ℕ → List String → List Token → List Token → Type 0
IsFields d seen tokens rest =
    (fs : Fields) × (tokens ≡ spell_fields fs (close_object ∷ rest))
    × (d + depth_fields fs ≤ 64)
    × AreNew seen fs

-- What the walks with a given fuel accept.
abbrev IsSound : ℕ → Type 0
IsSound n =
    ((d : ℕ) (ts rest : List Token) → walk_json n d ts ≡ walked rest → IsValue d ts rest)
    × ((d : ℕ) (seen : List String) (ts rest : List Token)
        → d ≤ 64
        → walk_fields n d seen ts ≡ walked rest
        → IsFields d seen ts rest)
    × ((d : ℕ) (ts rest : List Token)
        → d ≤ 64
        → walk_items n d ts ≡ walked rest
        → IsItems d ts rest)

-- A walk that goes on has a rest to go on with.
then_walked :
    (w : Walk) (next : List Token → Walk) (rest : List Token)
    → then_walk w next ≡ walked rest
    → (middle : List Token) × (w ≡ walked middle) × (next middle ≡ walked rest)
then_walked (walked middle) next rest h = (middle, refl, h)
then_walked (refused e) next rest h = ground arith
then_walked no_fuel next rest h = ground arith

module _ (n : ℕ) (sound : IsSound n) where
  token-IsValue :
      (d : ℕ) (ts rest : List Token)
      → d ≤ 64
      → walk_token (walk_fields n d []) (walk_items n d) ts ≡ walked rest
      → IsValue d ts rest
  unfolding spell depth IsUnambiguous
  token-IsValue d [] rest hd h = ground arith
  token-IsValue d (open_object ∷ ts) rest hd h =
      let x = sound.1 d [] ts rest hd h in (obj x.0, ap (λ l. open_object ∷ l) x.1, x.2, x.3)
  token-IsValue d (open_array ∷ ts) rest hd h =
      let x = sound.2 d ts rest hd h in (arr x.0, ap (λ l. open_array ∷ l) x.1, x.2, x.3)
  token-IsValue d (text s ∷ ts) rest hd h =
      (str s, ap (λ l. text s ∷ l) (walked-inj ts rest h), omega (arith, hd), tt)
  token-IsValue d (null_token ∷ ts) rest hd h =
      (null, ap (λ l. null_token ∷ l) (walked-inj ts rest h), omega (arith, hd), tt)
  token-IsValue d (bool_token b ∷ ts) rest hd h =
      (bool b, ap (λ l. bool_token b ∷ l) (walked-inj ts rest h), omega (arith, hd), tt)
  token-IsValue d (int_token i ∷ ts) rest hd h =
      (int i, ap (λ l. int_token i ∷ l) (walked-inj ts rest h), omega (arith, hd), tt)
  token-IsValue d (fraction_token s ∷ ts) rest hd h =
      (fraction s, ap (λ l. fraction_token s ∷ l) (walked-inj ts rest h), omega (arith, hd), tt)
  token-IsValue d (close_object ∷ ts) rest hd h = ground arith
  token-IsValue d (close_array ∷ ts) rest hd h = ground arith
  token-IsValue d (malformed ∷ ts) rest hd h = ground arith

  step-IsValue :
      (d : ℕ) (ts rest : List Token) → walk_json (suc n) d ts ≡ walked rest → IsValue d ts rest
  unfolding walk_json
  step-IsValue d ts rest =
      if_elim (λ w. w ≡ walked rest → IsValue d ts rest) (ltb max_json_depth d)
        (λ k h. ground arith) (λ k h. token-IsValue d ts rest (not_ltb→le 64 d k) h)

  step-IsFields :
      (d : ℕ) (seen : List String) (ts rest : List Token)
      → d ≤ 64
      → walk_fields (suc n) d seen ts ≡ walked rest
      → IsFields d seen ts rest
  unfolding walk_json spell depth IsUnambiguous
  step-IsFields d seen [] rest hd h = ground arith
  step-IsFields d seen (close_object ∷ ts) rest hd h =
      (end, ap (λ l. close_object ∷ l) (walked-inj ts rest h), omega (arith, hd), tt)
  step-IsFields d seen (text name ∷ ts) rest hd h =
      if_elim (λ w. w ≡ walked rest → IsFields d seen (text name ∷ ts) rest) (is_seen name seen)
        (λ k m. ground arith)
        (λ k m.
          let x = then_walked (walk_json n (d + 1) ts) (walk_fields n d (name ∷ seen)) rest m in
          let v = sound.0 (d + 1) ts x.0 x.1 in
          let fs = sound.1 d (name ∷ seen) x.0 rest hd x.2 in
          (
            field name v.0 fs.0,
            ap (λ l. text name ∷ l) (v.1 ∙ ap (spell v.0) fs.1),
            omega (arith, v.2, fs.2),
            (k, v.3, fs.3),
          ))
        h
  step-IsFields d seen (open_object ∷ ts) rest hd h = ground arith
  step-IsFields d seen (open_array ∷ ts) rest hd h = ground arith
  step-IsFields d seen (close_array ∷ ts) rest hd h = ground arith
  step-IsFields d seen (null_token ∷ ts) rest hd h = ground arith
  step-IsFields d seen (bool_token b ∷ ts) rest hd h = ground arith
  step-IsFields d seen (int_token i ∷ ts) rest hd h = ground arith
  step-IsFields d seen (fraction_token s ∷ ts) rest hd h = ground arith
  step-IsFields d seen (malformed ∷ ts) rest hd h = ground arith

  item_step :
      (d : ℕ) (ts rest : List Token)
      → d ≤ 64
      → then_walk (walk_json n (d + 1) ts) (walk_items n d) ≡ walked rest
      → IsItems d ts rest
  unfolding spell depth IsUnambiguous
  item_step d ts rest hd h =
      let x = then_walked (walk_json n (d + 1) ts) (walk_items n d) rest h in
      let v = sound.0 (d + 1) ts x.0 x.1 in
      let xs = sound.2 d x.0 rest hd x.2 in
      (cons v.0 xs.0, v.1 ∙ ap (spell v.0) xs.1, omega (arith, v.2, xs.2), (v.3, xs.3))

  step-IsItems :
      (d : ℕ) (ts rest : List Token)
      → d ≤ 64
      → walk_items (suc n) d ts ≡ walked rest
      → IsItems d ts rest
  unfolding walk_json spell depth IsUnambiguous
  step-IsItems d [] rest hd h = ground arith
  step-IsItems d (close_array ∷ ts) rest hd h =
      (nil, ap (λ l. close_array ∷ l) (walked-inj ts rest h), omega (arith, hd), tt)
  step-IsItems d (close_object ∷ ts) rest hd h = ground arith
  step-IsItems d (t ∷ ts) rest hd h = item_step d (t ∷ ts) rest hd h

all-IsSound : (n : ℕ) → IsSound n
unfolding walk_json
all-IsSound zero = (
  λ d ts rest h. ground arith,
  λ d seen ts rest hd h. ground arith,
  λ d ts rest hd h. ground arith,
)
all-IsSound (suc n) =
    let sound = all-IsSound n in (step-IsValue n sound, step-IsFields n sound, step-IsItems n sound)

pub walk_json-IsValue :
    (n d : ℕ) (ts rest : List Token) → walk_json n d ts ≡ walked rest → IsValue d ts rest
walk_json-IsValue n = (all-IsSound n).0
