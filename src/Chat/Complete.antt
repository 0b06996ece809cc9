-- ===== src/Chat/Complete.antt =====
-- The shape of an unambiguous value of at most the permitted depth is accepted.
use modelcairn.Base.{
  ℕ, zero, suc, ◌+◌, ◌*◌, ◌≤◌, String, false, List, [], ◌∷◌, ◌≡◌, refl, arith, length, ltb,
}
use modelcairn.Json.{
  Json, null, bool, int, fraction, str, arr, obj, Items, nil, cons, Fields, end, field,
}
use modelcairn.Chat.Shape.{
  Token, enough, close_array, close_object, walked, item_turn, walk_json, walk_fields, walk_items,
}
use modelcairn.Chat.Tokens.{
  spell, spell_items, spell_fields, depth, depth_items, depth_fields, IsUnambiguous, AreUnambiguous,
  AreNew,
}

unfoldable mutual
  -- The fuel that the walk over a value takes.
  pub need : Json → ℕ
  need (arr xs) = 1 + need_items xs
  need (obj fs) = 1 + need_fields fs
  need _ = 1

  need_items : Items → ℕ
  need_items nil = 1
  need_items (cons v xs) = 1 + need v + need_items xs

  need_fields : Fields → ℕ
  need_fields end = 1
  need_fields (field k v fs) = 1 + need v + need_fields fs

not_deep : (d : ℕ) → d ≤ 64 → ltb 64 d ≡ false
not_deep d h = ground arith

item_turn-spell :
    (next : List Token → _) (v : Json) (rest : List Token)
    → item_turn next (spell v rest) ≡ next (spell v rest)
unfolding spell
item_turn-spell next null rest = refl
item_turn-spell next (bool b) rest = refl
item_turn-spell next (int n) rest = refl
item_turn-spell next (fraction s) rest = refl
item_turn-spell next (str s) rest = refl
item_turn-spell next (arr xs) rest = refl
item_turn-spell next (obj fs) rest = refl

need_pos : (v : Json) → 1 ≤ need v
unfolding need
need_pos null = omega arith
need_pos (bool b) = omega arith
need_pos (int n) = omega arith
need_pos (fraction s) = omega arith
need_pos (str s) = omega arith
need_pos (arr xs) = omega arith
need_pos (obj fs) = omega arith

need_items_pos : (xs : Items) → 1 ≤ need_items xs
unfolding need
need_items_pos nil = omega arith
need_items_pos (cons v xs) = omega arith

need_fields_pos : (fs : Fields) → 1 ≤ need_fields fs
unfolding need
need_fields_pos end = omega arith
need_fields_pos (field k v fs) = omega arith

mutual
  unfolding walk_json spell depth IsUnambiguous need

  pub walk_json-spell :
      (n d : ℕ) (v : Json) (rest : List Token)
      → need v ≤ n
      → d + depth v ≤ 64
      → IsUnambiguous v
      → walk_json n d (spell v rest) ≡ walked rest
  walk_json-spell zero d v rest hn hd hu = absurd (omega (arith, hn, need_pos v))
  walk_json-spell (suc n) d null rest hn hd hu = rw (not_deep d (omega (arith, hd))) refl
  walk_json-spell (suc n) d (bool b) rest hn hd hu = rw (not_deep d (omega (arith, hd))) refl
  walk_json-spell (suc n) d (int i) rest hn hd hu = rw (not_deep d (omega (arith, hd))) refl
  walk_json-spell (suc n) d (fraction s) rest hn hd hu = rw (not_deep d (omega (arith, hd))) refl
  walk_json-spell (suc n) d (str s) rest hn hd hu = rw (not_deep d (omega (arith, hd))) refl
  walk_json-spell (suc n) d (arr xs) rest hn hd hu =
      rw (not_deep d (omega (arith, hd))) (walk_items-spell n d xs rest (omega (arith, hn)) hd hu)
  walk_json-spell (suc n) d (obj fs) rest hn hd hu =
      rw (not_deep d (omega (arith, hd)))
        (walk_fields-spell n d [] fs rest (omega (arith, hn)) hd hu)

  walk_items-spell :
      (n d : ℕ) (xs : Items) (rest : List Token)
      → need_items xs ≤ n
      → d + depth_items xs ≤ 64
      → AreUnambiguous xs
      → walk_items n d (spell_items xs (close_array ∷ rest)) ≡ walked rest
  walk_items-spell zero d xs rest hn hd hu = absurd (omega (arith, hn, need_items_pos xs))
  walk_items-spell (suc n) d nil rest hn hd hu = refl
  walk_items-spell (suc n) d (cons v xs) rest hn hd hu =
      rw
        (
          item_turn-spell _ v (spell_items xs (close_array ∷ rest)),
          walk_json-spell n (d + 1) v (spell_items xs (close_array ∷ rest)) (omega (arith, hn))
              (omega (arith, hd)) hu.0,
        )
        (walk_items-spell n d xs rest (omega (arith, hn)) (omega (arith, hd)) hu.1)

  walk_fields-spell :
      (n d : ℕ) (seen : List String) (fs : Fields) (rest : List Token)
      → need_fields fs ≤ n
      → d + depth_fields fs ≤ 64
      → AreNew seen fs
      → walk_fields n d seen (spell_fields fs (close_object ∷ rest)) ≡ walked rest
  walk_fields-spell zero d seen fs rest hn hd hu = absurd (omega (arith, hn, need_fields_pos fs))
  walk_fields-spell (suc n) d seen end rest hn hd hu = refl
  walk_fields-spell (suc n) d seen (field k v fs) rest hn hd hu =
      rw
        (
          hu.0,
          walk_json-spell n (d + 1) v (spell_fields fs (close_object ∷ rest)) (omega (arith, hn))
              (omega (arith, hd)) hu.1,
        )
        (walk_fields-spell n d (k ∷ seen) fs rest (omega (arith, hn)) (omega (arith, hd)) hu.2)

mutual
  unfolding spell need

  need-spell :
      (v : Json) (rest : List Token) → need v + 1 + 2 * length rest ≤ 2 * length (spell v rest)
  need-spell null rest = omega arith
  need-spell (bool b) rest = omega arith
  need-spell (int n) rest = omega arith
  need-spell (fraction s) rest = omega arith
  need-spell (str s) rest = omega arith
  need-spell (arr xs) rest = omega (arith, need_items-spell xs (close_array ∷ rest))
  need-spell (obj fs) rest = omega (arith, need_fields-spell fs (close_object ∷ rest))

  need_items-spell :
      (xs : Items) (rest : List Token)
      → need_items xs + 2 * length rest ≤ 2 * length (spell_items xs rest) + 1
  need_items-spell nil rest = omega arith
  need_items-spell (cons v xs) rest =
      omega (arith, need-spell v (spell_items xs rest), need_items-spell xs rest)

  need_fields-spell :
      (fs : Fields) (rest : List Token)
      → need_fields fs + 2 * length rest ≤ 2 * length (spell_fields fs rest) + 1
  need_fields-spell end rest = omega arith
  need_fields-spell (field k v fs) rest =
      omega (arith, need-spell v (spell_fields fs rest), need_fields-spell fs rest)

pub need-enough : (v : Json) → need v ≤ enough (spell v [])
need-enough v = omega (arith, need-spell v [])
