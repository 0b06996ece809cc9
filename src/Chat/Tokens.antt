-- ===== src/Chat/Tokens.antt =====
-- The tokens of a JSON value, and what internal/chatcompletions/request.go demands of it.
use modelcairn.Base.{ℕ, suc, max, String, false, List, [], ◌∷◌, ◌≡◌}
use modelcairn.Json.{
  Json, null, bool, int, fraction, str, arr, obj, Items, nil, cons, Fields, end, field,
}
use modelcairn.Chat.Shape.{
  Token, open_object, close_object, open_array, close_array, text, null_token, bool_token,
  int_token, fraction_token, is_seen,
}

unfoldable mutual
  -- The tokens of a value, before others.
  pub spell : Json → List Token → List Token
  spell null rest = null_token ∷ rest
  spell (bool b) rest = bool_token b ∷ rest
  spell (int n) rest = int_token n ∷ rest
  spell (fraction s) rest = fraction_token s ∷ rest
  spell (str s) rest = text s ∷ rest
  spell (arr xs) rest = open_array ∷ spell_items xs (close_array ∷ rest)
  spell (obj fs) rest = open_object ∷ spell_fields fs (close_object ∷ rest)

  pub spell_items : Items → List Token → List Token
  spell_items nil rest = rest
  spell_items (cons v xs) rest = spell v (spell_items xs rest)

  pub spell_fields : Fields → List Token → List Token
  spell_fields end rest = rest
  spell_fields (field k v fs) rest = text k ∷ spell v (spell_fields fs rest)

unfoldable mutual
  -- How many arrays and objects there are around the innermost value.
  pub depth : Json → ℕ
  depth (arr xs) = depth_items xs
  depth (obj fs) = depth_fields fs
  depth _ = 0

  pub depth_items : Items → ℕ
  depth_items nil = 0
  depth_items (cons v xs) = max (suc (depth v)) (depth_items xs)

  pub depth_fields : Fields → ℕ
  depth_fields end = 0
  depth_fields (field k v fs) = max (suc (depth v)) (depth_fields fs)

unfoldable mutual
  -- No object has a name twice.
  pub IsUnambiguous : Json → Type 0
  IsUnambiguous (arr xs) = AreUnambiguous xs
  IsUnambiguous (obj fs) = AreNew [] fs
  IsUnambiguous _ = Unit

  pub AreUnambiguous : Items → Type 0
  AreUnambiguous nil = Unit
  AreUnambiguous (cons v xs) = IsUnambiguous v × AreUnambiguous xs

  -- The names are none of those seen before, nor one another.
  pub AreNew : List String → Fields → Type 0
  AreNew seen end = Unit
  AreNew seen (field k v fs) = (is_seen k seen ≡ false) × IsUnambiguous v × AreNew (k ∷ seen) fs
