-- ===== src/Redact.antt =====
-- internal/redact/redact.go: the values that are removed from output, with a count of their registrations.
use modelcairn.Base.{
  ℕ, zero, suc, ◌+◌, ◌-◌, String, Bool, true, false, ◌&&◌, ◌||◌, not, Option, none, some, List, [],
  ◌∷◌, ◌++◌, ltb, ◌==◌, length, filter, map, if◌then◌else◌,
}
use modelcairn.Base.Sort.{sort}
use modelcairn.Plan.Base64.{Bytes}
use modelcairn.Plan.Token.{eq_bytes}
pub mod Counts
pub mod Runs
pub mod Listed
pub mod Held
pub mod Redacted

-- An entry, with the key that it has in the map.
pub record Item : Type 0 where
  pub digest : Bytes
  pub value : Bytes
  pub refs : ℕ

-- `ordered` has pointers to entries: each is the key of its entry.
pub record Redactor : Type 0 where
  pub entries : List Item
  pub ordered : List Bytes

-- `New`
abbrev pub new : Redactor
new = record { entries = []; ordered = [] }

unfoldable pub find : Bytes → List Item → Option Item
find d [] = none
find d (item ∷ items) =
    let rest = find d items in if eq_bytes item.digest d then some item else rest

-- `delete(r.entries, digest)`
unfoldable pub delete : Bytes → List Item → List Item
delete d [] = []
delete d (item ∷ items) =
    let rest = delete d items in if eq_bytes item.digest d then rest else item ∷ rest

unfoldable pub set_refs : Bytes → ℕ → List Item → List Item
set_refs d n [] = []
set_refs d n (item ∷ items) =
    let rest = set_refs d n items in
    if eq_bytes item.digest d then record item { refs = n } ∷ rest else item ∷ rest

abbrev pub value_or : Option Item → Bytes
value_or none = []
value_or (some item) = item.value

-- The value of the entry that a pointer leads to.
abbrev pub value_of : List Item → Bytes → Bytes
value_of items d = value_or (find d items)

-- The comparison of the stable sort.
abbrev pub longer : List Item → Bytes → Bytes → Bool
longer items a b = ltb (length (value_of items b)) (length (value_of items a))

-- The loop that takes the first pointer to an entry out of `ordered`.
unfoldable pub remove : Bytes → List Bytes → List Bytes
remove d [] = []
remove d (e ∷ es) = let rest = remove d es in if eq_bytes e d then es else e ∷ rest

pub data Registered : Type 0 where
  registered : Redactor → Registered
  invalid_value : Registered
  digest_collision : Registered

abbrev pub add_entry : Redactor → Bytes → Bytes → Redactor
add_entry r value digest =
    let entries = record { digest = digest; value = value; refs = 1 } ∷ r.entries in
    record { entries = entries; ordered = sort (longer entries) (r.ordered ++ digest ∷ []) }

abbrev pub register_found : Redactor → Bytes → Bytes → Option Item → Registered
register_found r value digest none = registered (add_entry r value digest)
register_found r value digest (some item) =
    if not (eq_bytes item.value value)
    then digest_collision
    else registered (record r { entries = set_refs digest (item.refs + 1) r.entries })

-- `Register` of a redactor that is not nil, with the function that hashes a value
unfoldable pub register : (Bytes → Bytes) → Redactor → Bytes → Registered
register sha256 r value =
    if ltb (length value) 8 || ltb 16384 (length value)
    then invalid_value
    else register_found r value (sha256 value) (find (sha256 value) r.entries)

abbrev pub release_found : Redactor → Bytes → Option Item → Redactor
release_found r digest none = r
release_found r digest (some item) =
    if ltb 0 (item.refs - 1)
    then record r { entries = set_refs digest (item.refs - 1) r.entries }
    else record r { entries = delete digest r.entries; ordered = remove digest r.ordered }

-- The body of the removal function, which runs at most once.
unfoldable pub release : Redactor → Bytes → Redactor
release r digest = release_found r digest (find digest r.entries)

-- A removal function: the digest that it closes over, and whether it has been called.
pub record Handle : Type 0 where
  pub digest : Bytes
  pub done : Bool

-- A redactor, and the removal functions that it has returned, in order.
pub record World : Type 0 where
  pub redactor : Redactor
  pub handles : List Handle

pub data Event : Type 0 where
  registers : Bytes → Event
  releases : ℕ → Event

abbrev pub hold : World → Bytes → Registered → World
hold w digest (registered r) = record {
  redactor = r;
  handles = w.handles ++ record { digest = digest; done = false } ∷ [];
}
hold w digest invalid_value = w
hold w digest digest_collision = w

unfoldable pub handle_at : ℕ → List Handle → Option Handle
handle_at i [] = none
handle_at zero (h ∷ hs) = some h
handle_at (suc i) (h ∷ hs) = handle_at i hs

unfoldable pub mark : ℕ → List Handle → List Handle
mark i [] = []
mark zero (h ∷ hs) = record h { done = true } ∷ hs
mark (suc i) (h ∷ hs) = h ∷ mark i hs

-- `once.Do`
abbrev pub call_once : World → ℕ → Option Handle → World
call_once w i none = w
call_once w i (some h) =
    if h.done
    then w
    else record { redactor = release w.redactor h.digest; handles = mark i w.handles }

abbrev pub step : (Bytes → Bytes) → World → Event → World
step sha256 w (registers value) = hold w (sha256 value) (register sha256 w.redactor value)
step sha256 w (releases i) = call_once w i (handle_at i w.handles)

unfoldable pub run : (Bytes → Bytes) → World → List Event → World
run sha256 w [] = w
run sha256 w (e ∷ es) = run sha256 (step sha256 w e) es

-- "[REDACTED]"
abbrev pub replacement : Bytes
replacement = 91 ∷ 82 ∷ 69 ∷ 68 ∷ 65 ∷ 67 ∷ 84 ∷ 69 ∷ 68 ∷ 93 ∷ []

-- The values that `Bytes` replaces, in order.
abbrev pub values : Redactor → List Bytes
values r = map (value_of r.entries) r.ordered

-- The loop of `Bytes`, with `bytes.ReplaceAll`.
unfoldable pub replace_each : (Bytes → Bytes → Bytes → Bytes) → List Bytes → Bytes → Bytes
replace_each replace_all [] result = result
replace_each replace_all (v ∷ vs) result =
    replace_each replace_all vs (replace_all result v replacement)

-- `Bytes`, of a redactor that may be nil
unfoldable pub redact_bytes : (Bytes → Bytes → Bytes → Bytes) → Option Redactor → Bytes → Bytes
unfolding replace_each
redact_bytes replace_all none value = value
redact_bytes replace_all (some r) value = replace_each replace_all (values r) value
