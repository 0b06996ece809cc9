-- ===== src/Streaming/Normalize/Alias.antt =====
-- The model name in a chunk that is passed on.
use modelcairn.Base.{ℕ, String, Option, none, some, List, ◌≡◌, arith}
use modelcairn.Json.{Json, obj, str, Fields, get, put, get-put_self}
use modelcairn.Streaming.Normalize.{
  Codec, Normalized, normalize_object, normalize_value, normalize_chunk,
}

-- The text of an object whose model is the requested alias.
abbrev pub IsAliased : Codec → String → List ℕ → Type 0
IsAliased codec alias payload =
    (object : Fields) × (payload ≡ codec.encode object) × (get object "model" ≡ some (str alias))

object-encoded :
    (codec : Codec) (alias : String) (object : Fields) (n : Normalized)
    → normalize_object codec alias object ≡ some n
    → n.payload ≡ codec.encode (put object "model" (str alias))
unfolding normalize_object
object-encoded codec alias object n h = ground arith

value-IsAliased :
    (codec : Codec) (alias : String) (v : Option Json) (n : Normalized)
    → normalize_value codec alias v ≡ some n
    → IsAliased codec alias n.payload
unfolding normalize_value
value-IsAliased codec alias (some (obj object)) n h = (
  put object "model" (str alias),
  object-encoded codec alias object n h,
  get-put_self object "model" _,
)
value-IsAliased codec alias (some _) n h = cc
value-IsAliased codec alias none n h = cc

-- Whatever model the provider names, a chunk that is passed on names the requested alias.
pub normalize_chunk-IsAliased :
    (codec : Codec) (payload : List ℕ) (alias : String) (n : Normalized)
    → normalize_chunk codec payload alias ≡ some n
    → IsAliased codec alias n.payload
unfolding normalize_chunk
normalize_chunk-IsAliased codec payload alias n h =
    value-IsAliased codec alias (codec.decode payload) n h
