-- ===== src/Plan/Execute.antt =====
-- internal/storage/plan_transaction.go: a plan is verified, its nonce is consumed and its change is applied, in one
-- transaction.
use modelcairn.Base.{
  String, str_eq, Bool, true, false, ◌||◌, ◌&&◌, not, Option, none, some, List, [], ◌∷◌, ℤ,
  if◌then◌else◌,
}
use modelcairn.Plan.Base64.{Bytes, decode}
use modelcairn.Plan.Binding.{
  PlanBinding, PlanError, invalid_plan, plan_already_used, key_material_unavailable, repository,
  Result, ok, fail,
}
use modelcairn.Plan.Token.{PlanClaims, Crypto, Keys, eq_bytes, valid_plan_purpose, authenticate}
use modelcairn.Plan.Verify.{or_nil, verify}

-- The store: what the transaction can change is the rows of `consumed_plan_tokens`, by their hashes, and
-- `content`, all other tables.
pub record Store (D : Type 0) : Type 0 where
  pub keys : Keys
  pub consumed : List Bytes
  pub content : D

-- What the database answers to one execution, beyond its content: errors, and whether a commit that
-- reported an error took place.
pub record Db : Type 0 where
  pub begin_error : Option PlanError
  pub query_error : Option PlanError
  pub insert_error : Option PlanError
  pub commit_error : Option PlanError
  pub durable : Bool

-- The callbacks of an execution, which may be nil, and what the clock shows.
pub record Request (D : Type 0) : Type 0 where
  pub purpose : String
  pub token : Bytes
  pub now : ℤ
  pub snapshot : Option (D → Result PlanBinding)
  pub apply : Option (D → Result D)

-- `IsRepositoryCode(err, CodeVersionConflict)`
abbrev pub is_conflict : PlanError → Bool
is_conflict (repository code) = str_eq code "version_conflict"
is_conflict _ = false

unfoldable pub is_consumed : Bytes → List Bytes → Bool
is_consumed hash [] = false
is_consumed hash (h ∷ hs) = eq_bytes hash h || is_consumed hash hs

-- The error of a query, and else the answer.
abbrev pub queried : PlanError → Option PlanError → PlanError
queried answer none = answer
queried answer (some e) = e

module _ (S : Crypto) {D : Type 0} where
  -- The error of a conflict, unless the query fails or finds that the nonce was consumed.
  abbrev pub conflict_error : Db → Store D → Bytes → PlanError → PlanError
  conflict_error db w nonce e =
      queried (if is_consumed (S.sha256 nonce) w.consumed then plan_already_used else e)
        db.query_error

  -- The snapshot has failed.
  abbrev pub snapshot_conflict : Db → Store D → Result PlanClaims → PlanError → PlanError
  snapshot_conflict db w (fail auth_error) e = auth_error
  snapshot_conflict db w (ok c) e = conflict_error db w (or_nil (decode c.nonce)) e

  abbrev pub snapshot_error : Db → Request D → Store D → PlanError → PlanError
  snapshot_error db r w e =
      if is_conflict e
      then snapshot_conflict db w (authenticate S w.keys r.purpose r.token r.now) e
      else e

  abbrev pub nonce_conflict : Db → Store D → Option Bytes → PlanError → PlanError
  nonce_conflict db w none e = e
  nonce_conflict db w (some nonce) e = conflict_error db w nonce e

  -- The verification has failed.
  abbrev pub verify_error : Db → Store D → PlanClaims → PlanError → PlanError
  verify_error db w c e =
      if is_conflict e && not (eq_bytes c.nonce [])
      then nonce_conflict db w (decode c.nonce) e
      else e

  -- `tx.Commit`
  abbrev pub commit : Db → Store D → Bytes → D → Option PlanError → Option PlanError × Store D
  commit db w hash content none =
      (none, record w { consumed = hash ∷ w.consumed; content = content })
  commit db w hash content (some e) = (
    some e,
    record {
      keys = record (w.keys) { unavailable = true };
      consumed = if db.durable then hash ∷ w.consumed else w.consumed;
      content = if db.durable then content else w.content;
    },
  )

  abbrev pub applied : Db → Store D → Bytes → Result D → Option PlanError × Store D
  applied db w hash (fail e) = (some e, w)
  applied db w hash (ok content) = commit db w hash content db.commit_error

  abbrev pub insert_hash :
      Db → (D → Result D) → Store D → Bytes → Option PlanError → Option PlanError × Store D
  insert_hash db apply w hash (some e) = (some e, w)
  insert_hash db apply w hash none =
      if is_consumed hash w.consumed
      then (some plan_already_used, w)
      else applied db w hash (apply w.content)

  abbrev pub consume : Db → (D → Result D) → Store D → Option Bytes → Option PlanError × Store D
  consume db apply w none = (some invalid_plan, w)
  consume db apply w (some nonce) = insert_hash db apply w (S.sha256 nonce) db.insert_error

  abbrev pub verified :
      Db → (D → Result D) → Store D → PlanClaims × Option PlanError → Option PlanError × Store D
  verified db apply w (c, some e) = (some (verify_error db w c e), w)
  verified db apply w (c, none) = consume db apply w (decode c.nonce)

  abbrev pub with_snapshot :
      Db → Request D → (D → Result D) → Store D → Result PlanBinding → Option PlanError × Store D
  with_snapshot db r apply w (fail e) = (some (snapshot_error db r w e), w)
  with_snapshot db r apply w (ok binding) =
      verified db apply w (verify S w.keys r.purpose r.token binding r.now)

  abbrev pub begun :
      Db
      → Request D
      → Store D
      → (D → Result PlanBinding)
      → (D → Result D)
      → Option PlanError
      → Option PlanError × Store D
  begun db r w snapshot apply (some e) = (some e, w)
  begun db r w snapshot apply none = with_snapshot db r apply w (snapshot w.content)

  abbrev pub with_callbacks :
      Db
      → Request D
      → Store D
      → Option (D → Result PlanBinding)
      → Option (D → Result D)
      → Option PlanError × Store D
  with_callbacks db r w (some snapshot) (some apply) =
      if w.keys.unavailable
      then (some key_material_unavailable, w)
      else begun db r w snapshot apply db.begin_error
  with_callbacks db r w _ _ = (some invalid_plan, w)

  -- `executePlanForPurpose`
  unfoldable pub execute : Db → Request D → Store D → Option PlanError × Store D
  execute db r w =
      if not (valid_plan_purpose r.purpose)
      then (some invalid_plan, w)
      else with_callbacks db r w r.snapshot r.apply
