-- ===== src/Chat/Needs.antt =====
-- What the capabilities that `validateRequest` requires stand for.
use mathlib.Core.List.{Permᴰ}
use Prim.Native.String.{len}
use modelcairn.Base.{
  ℕ, String, str_eq, Bool, true, false, ◌&&◌, ◌||◌, not, Option, none, some, List, [], ◌∷◌, ltb,
  ◌≡◌, refl, sym, ap, ◌∙◌, arith, if_elim, Bool-cases, inl, inr, str_eq→≡, is_some, if◌then◌else◌,
}
use modelcairn.Base.Text.{str_lt, str_lt-asym, str_lt-cotrans}
use modelcairn.Base.Sort.{sort, sort-Permᴰ}
use modelcairn.Chat.{Message, ToolCall, Request}
use modelcairn.Chat.Shape.{Error, is_seen}
use modelcairn.Chat.Messages.{
  Decoders, Checked, accepted, rejected, capability_text, capability_stream, capability_tools,
  capability_parallel_tools, capability_developer_role, put, is_empty, is_null, is_blank,
  valid_text_content, first_bad_call, after_calls, validate_text_message, validate_assistant,
  validate_tool_message, validate_role, validate_message, indexed,
}
use modelcairn.Chat.Validate.{is_true, put_if}

-- The capability that a message needs beyond text.
unfoldable pub message_needs : Message → String → Bool
message_needs m c =
    if str_eq m.role "developer"
    then str_eq c capability_developer_role
    else if str_eq m.role "assistant"
    then not (is_empty m.tool_calls) && str_eq c capability_tools
    else if str_eq m.role "tool"
    then str_eq c capability_tools
    else false

abbrev pub messages_need : List Message → String → Bool
messages_need [] c = false
messages_need (m ∷ ms) c = message_needs m c || messages_need ms c

-- A request needs text, and what its messages and its options ask for.
abbrev pub request_needs : Request → String → Bool
request_needs r c =
    str_eq c capability_text
    || messages_need r.messages c
    || (r.stream && str_eq c capability_stream)
    || (not (is_empty r.tools) && str_eq c capability_tools)
    || (is_some r.tool_choice && str_eq c capability_tools)
    || (is_true r.parallel_tool_calls && str_eq c capability_parallel_tools)

seen_same : (c x : String) (xs : List String) → str_eq c x ≡ true → is_seen x xs ≡ is_seen c xs
seen_same c x xs h = ap (λ y. is_seen y xs) (sym (str_eq→≡ c x h))

pub is_seen-put :
    (c x : String) (xs : List String) → is_seen c (put x xs) ≡ (str_eq c x || is_seen c xs)
is_seen-put c x xs = ground (arith, seen_same c x xs)

pub is_seen-put_if :
    (b : Bool) (c x : String) (xs : List String)
    → is_seen c (put_if b x xs) ≡ (b && str_eq c x || is_seen c xs)
is_seen-put_if true c x xs = is_seen-put c x xs
is_seen-put_if false c x xs = refl

either : (a b x : Bool) → (a || (b || x)) ≡ (b || (a || x))
either a b x = ground arith

pub is_seen-Permᴰ : (c : String) {xs ys : List String} → Permᴰ xs ys → is_seen c xs ≡ is_seen c ys
is_seen-Permᴰ c Permᴰ.nil = refl
is_seen-Permᴰ c (Permᴰ.cons e d) = rw (e, is_seen-Permᴰ c d) refl
is_seen-Permᴰ c (Permᴰ.swap {a = a} {b = b} {l = l} e f) =
    rw (sym e, sym f) (either (str_eq c a) (str_eq c b) (is_seen c l))
is_seen-Permᴰ c (Permᴰ.trans d e) = is_seen-Permᴰ c d ∙ is_seen-Permᴰ c e

pub is_seen-sort : (c : String) (xs : List String) → is_seen c (sort str_lt xs) ≡ is_seen c xs
is_seen-sort c xs = is_seen-Permᴰ c (sort-Permᴰ str_lt str_lt-asym str_lt-cotrans xs)

checked_or : List String → Checked (List String) → List String
checked_or d (accepted x) = x
checked_or d (rejected e) = d

pub accepted-inj : (xs ys : List String) → accepted xs ≡ accepted ys → xs ≡ ys
unfolding checked_or
accepted-inj xs ys h = ap (checked_or xs) h

plain_role :
    (role : String)
    → (str_eq role "system" || str_eq role "user") ≡ true
    → (str_eq role "assistant" ≡ false) × (str_eq role "tool" ≡ false)
plain_role role h = elim (Bool-cases (str_eq role "system")) [
  | inl k ↦ (
    ap (λ r. str_eq r "assistant") (str_eq→≡ role "system" k),
    ap (λ r. str_eq r "tool") (str_eq→≡ role "system" k),
  )
  | inr k ↦
      let u = str_eq→≡ role "user" (ground (arith, h, k)) in
      (ap (λ r. str_eq r "assistant") u, ap (λ r. str_eq r "tool") u)
]

module _ (S : Decoders) (m : Message) (param : String) (caps : List String) (c : String) where
  -- An accepted message adds a capability to those before it exactly if `needed`.
  abbrev Adds : List String → Bool → Checked (List String) → Type 0
  Adds required needed r = r ≡ accepted caps → is_seen c caps ≡ (needed || is_seen c required)

  text-Adds :
      (required : List String) → Adds required false (validate_text_message S m param required)
  text-Adds required =
      if_elim (Adds required false)
        (not (valid_text_content S m.content false)
          || not (is_blank m.tool_call_id)
          || not (is_empty m.tool_calls))
        (λ k h. ground arith) (λ k h. ap (is_seen c) (sym (accepted-inj required caps h)))

  calls-Adds :
      (required : List String) (calls : List ToolCall) (e : Option Error)
      → Adds required
          (not (is_empty calls) && str_eq c capability_tools)
          (after_calls calls required e)
  calls-Adds required calls (some e) h = ground arith
  calls-Adds required [] none h = ap (is_seen c) (sym (accepted-inj required caps h))
  calls-Adds required (call ∷ calls) none h =
      ap (is_seen c) (sym (accepted-inj (put capability_tools required) caps h))
      ∙ is_seen-put c capability_tools required

  assistant-Adds :
      (required : List String)
      → Adds required
          (not (is_empty m.tool_calls) && str_eq c capability_tools)
          (validate_assistant S m param required)
  assistant-Adds required =
      let P = Adds required (not (is_empty m.tool_calls) && str_eq c capability_tools) in
      if_elim P (not (valid_text_content S m.content true) || not (is_blank m.tool_call_id))
        (λ k h. ground arith)
        (λ k.
          if_elim P (is_null m.content && is_empty m.tool_calls) (λ k h. ground arith)
            (λ k. calls-Adds required m.tool_calls (first_bad_call param 0 m.tool_calls)))

  tool-Adds :
      (required : List String)
      → Adds required (str_eq c capability_tools) (validate_tool_message S m param required)
  tool-Adds required =
      if_elim (Adds required (str_eq c capability_tools))
        (is_blank m.tool_call_id
          || ltb 256 (len m.tool_call_id)
          || not (valid_text_content S m.content false)
          || not (is_empty m.tool_calls))
        (λ k h. ground arith)
        (λ k h.
          ap (is_seen c) (sym (accepted-inj (put capability_tools required) caps h))
          ∙ is_seen-put c capability_tools required)

  role-Adds :
      (required : List String)
      → Adds required (message_needs m c) (validate_role S m param required)
  unfolding message_needs
  role-Adds required = elim (Bool-cases (str_eq m.role "developer")) [
    | inl k ↦ rw (k) (λ h.
        text-Adds (put capability_developer_role required) h
        ∙ is_seen-put c capability_developer_role required)
    | inr k ↦ elim (Bool-cases (str_eq m.role "system" || str_eq m.role "user")) [
      | inl l ↦ rw (k, l, (plain_role m.role l).0, (plain_role m.role l).1) (text-Adds required)
      | inr l ↦ elim (Bool-cases (str_eq m.role "assistant")) [
        | inl n ↦ rw (k, l, n) (assistant-Adds required)
        | inr n ↦ elim (Bool-cases (str_eq m.role "tool")) [
          | inl o ↦ rw (k, l, n, o) (tool-Adds required)
          | inr o ↦ rw (k, l, n, o) (λ h. ground arith)
        ]
      ]
    ]
  ]

module _ (S : Decoders) (caps : List String) (c : String) where
  pub message-Adds :
      (m : Message) (i : ℕ) (required : List String)
      → validate_message S m i required ≡ accepted caps
      → is_seen c caps ≡ (message_needs m c || is_seen c required)
  unfolding validate_message
  message-Adds m i required =
      if_elim (λ r. r ≡ accepted caps → is_seen c caps ≡ (message_needs m c || is_seen c required))
        (ltb 64 (len m.name)) (λ k h. ground arith)
        (λ k. role-Adds S m (indexed "messages" i "") caps c required)
