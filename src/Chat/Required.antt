-- ===== src/Chat/Required.antt =====
-- What a request that `validateRequest` accepts is like, and which capabilities it requires.
use mathlib.Core.Path.{subst}
use modelcairn.Base.{
  ℕ, ◌+◌, ◌≤◌, String, str_eq, Bool, true, false, ◌&&◌, ◌||◌, not, Option, none, some, List, [],
  ◌∷◌, ltb, ◌≡◌, refl, sym, ap, ◌∙◌, arith, length, if_elim, is_some, not-false, or-false, same,
  first-none, not_ltb→le,
}
use modelcairn.Base.Text.{str_lt, str_lt-asym, str_lt-cotrans}
use modelcairn.Base.Sort.{sort, sort-IsSorted, IsSorted}
use modelcairn.Json.{Json}
use modelcairn.Config.Patterns.{is_alias}
use modelcairn.Chat.{Message, Tool, Request}
use modelcairn.Chat.Shape.{Error, is_seen}
use modelcairn.Chat.Messages.{
  Decoders, Checked, accepted, rejected, capability_text, capability_stream, capability_tools,
  capability_parallel_tools, max_messages, max_tools, is_function_name, is_empty, validate_message,
}
use modelcairn.Chat.Validate.{
  then_check, validate_messages, tool_error, tool_checks, option_checks, or_go_on, validate_tools,
  option_error, is_true, put_if, option_capabilities, validate_options, validate_stream,
  validate_request, bad_choice,
}
use modelcairn.Chat.Needs.{
  messages_need, request_needs, is_seen-put_if, is_seen-sort, message-Adds, accepted-inj,
}

then_accepted :
    (x : Checked (List String)) (next : List String → Checked (List String)) (caps : List String)
    → then_check x next ≡ accepted caps
    → (y : List String) × (x ≡ accepted y) × (next y ≡ accepted caps)
then_accepted (accepted y) next caps h = (y, refl, h)
then_accepted (rejected e) next caps h = ground arith

go_on_accepted :
    (e : Option Error) (next : Checked (List String)) (caps : List String)
    → or_go_on e next ≡ accepted caps
    → (e ≡ none) × (next ≡ accepted caps)
go_on_accepted none next caps h = (refl, h)
go_on_accepted (some e) next caps h = ground arith

messages-Add :
    (S : Decoders) (c : String) (i : ℕ) (ms : List Message) (required caps : List String)
    → validate_messages S i ms required ≡ accepted caps
    → is_seen c caps ≡ (messages_need ms c || is_seen c required)
unfolding validate_messages
messages-Add S c i [] required caps h = ap (is_seen c) (sym (accepted-inj required caps h))
messages-Add S c i (m ∷ ms) required caps h =
    let x =
      then_accepted (validate_message S m i required) (validate_messages S (i + 1) ms) caps h in
    let first = message-Adds S x.0 c m i required x.1 in
    let rest = messages-Add S c (i + 1) ms x.0 caps x.2 in ground (arith, first, rest)

-- Function tools with names of the permitted form, none of them seen before.
abbrev pub AreTools : List String → List Tool → Type 0
AreTools seen [] = Unit
AreTools seen (t ∷ ts) =
    (t.type ≡ "function")
    × (is_function_name t.function.name ≡ true)
    × (is_seen t.function.name seen ≡ false)
    × AreTools (t.function.name ∷ seen) ts

validate_tools-AreTools :
    (i : ℕ) (ts : List Tool) (seen names : List String)
    → validate_tools i ts seen ≡ accepted names
    → AreTools seen ts
unfolding validate_tools
validate_tools-AreTools i [] seen names h = tt
validate_tools-AreTools i (t ∷ ts) seen names h =
    let x =
      go_on_accepted (tool_error i t seen) (validate_tools (i + 1) ts (t.function.name ∷ seen))
        names h in
    let passed = first-none (tool_checks i t seen) x.0 in
    let named =
      or-false (not (str_eq t.type "function")) (not (is_function_name t.function.name)) passed.0 in
    (
      same t.type "function" named.0,
      not-false (is_function_name t.function.name) named.1,
      passed.1.0,
      validate_tools-AreTools (i + 1) ts (t.function.name ∷ seen) names x.1,
    )

choice_tools :
    (S : Decoders) (r : Request) (choice : Option Json) (seen : List String)
    → bad_choice S r choice seen ≡ false
    → is_some choice ≡ true
    → is_empty r.tools ≡ false
choice_tools S r none seen h k = ground arith
choice_tools S r (some v) seen h k = (or-false (is_empty r.tools) _ h).0

reorder :
    (p q t s m x : Bool)
    → (p || (q || (t || (s || (m || (x || false)))))) ≡ (x || m || s || t || q || p)
reorder p q t s m x = ground arith

-- An accepted request and the capabilities that it requires.
pub record IsRequired (r : Request) (caps : List String) : Type 0 where
  pub alias : is_alias r.model ≡ true
  pub some_messages : is_empty r.messages ≡ false
  pub few_messages : length r.messages ≤ max_messages
  pub few_tools : length r.tools ≤ max_tools
  pub tools : AreTools [] r.tools
  pub choice_has_tools : is_some r.tool_choice ≡ true → is_empty r.tools ≡ false
  pub parallel_has_tools : is_some r.parallel_tool_calls ≡ true → is_empty r.tools ≡ false
  pub one_limit : (is_some r.max_tokens && is_some r.max_completion_tokens) ≡ false
  pub in_order : IsSorted str_lt str_lt-asym str_lt-cotrans caps
  pub exact : (c : String) → is_seen c caps ≡ request_needs r c

module _ (S : Decoders) (r : Request) (caps : List String) where
  exact_options :
      (required : List String)
      → ((c : String)
          → is_seen c required ≡ (messages_need r.messages c || is_seen c (capability_text ∷ [])))
      → sort str_lt (option_capabilities r (put_if r.stream capability_stream required)) ≡ caps
      → (c : String) → is_seen c caps ≡ request_needs r c
  exact_options required h e c =
      let streamed = put_if r.stream capability_stream required in
      let tooled = put_if (not (is_empty r.tools)) capability_tools streamed in
      let chosen = put_if (is_some r.tool_choice) capability_tools tooled in
      ap (is_seen c) (sym e)
      ∙ is_seen-sort c (option_capabilities r streamed)
      ∙ is_seen-put_if (is_true r.parallel_tool_calls) c capability_parallel_tools chosen
      ∙ rw
          (
            is_seen-put_if (is_some r.tool_choice) c capability_tools tooled,
            is_seen-put_if (not (is_empty r.tools)) c capability_tools streamed,
            is_seen-put_if r.stream c capability_stream required,
            h c,
          )
          (reorder (is_true r.parallel_tool_calls && str_eq c capability_parallel_tools)
            (is_some r.tool_choice && str_eq c capability_tools)
            (not (is_empty r.tools) && str_eq c capability_tools)
            (r.stream && str_eq c capability_stream) (messages_need r.messages c)
            (str_eq c capability_text))

  module _ (alias : is_alias r.model ≡ true)
      (counted : (is_empty r.messages || ltb max_messages (length r.messages)) ≡ false)
      (required : List String)
      (needs : (c : String)
        → is_seen c required
          ≡ (messages_need r.messages c || is_seen c (capability_text ∷ []))) where
    options-IsRequired :
        (seen : List String)
        → ltb max_tools (length r.tools) ≡ false
        → AreTools [] r.tools
        → validate_options S r (put_if r.stream capability_stream required) seen ≡ accepted caps
        → IsRequired r caps
    options-IsRequired seen few tools h =
        let x = go_on_accepted (option_error S r seen) _ caps h in
        let passed = first-none (option_checks S r seen) x.0 in
        let messages =
          or-false (is_empty r.messages) (ltb max_messages (length r.messages)) counted in
        let e =
          accepted-inj
            (sort str_lt (option_capabilities r (put_if r.stream capability_stream required))) caps
            x.1 in
        record {
          alias = alias;
          some_messages = messages.0;
          few_messages = not_ltb→le max_messages (length r.messages) messages.1;
          few_tools = not_ltb→le max_tools (length r.tools) few;
          tools = tools;
          choice_has_tools = choice_tools S r r.tool_choice seen passed.0;
          parallel_has_tools = λ k. ground (arith, k, passed.1.0);
          one_limit = passed.1.1.1.1.0;
          in_order =
              subst (IsSorted str_lt str_lt-asym str_lt-cotrans) e
                (sort-IsSorted str_lt str_lt-asym str_lt-cotrans _);
          exact = exact_options required needs e;
        }

    stream-IsRequired : validate_stream S r required ≡ accepted caps → IsRequired r caps
    stream-IsRequired =
        let P = λ (x : Checked (List String)). x ≡ accepted caps → IsRequired r caps in
        if_elim P (not r.stream && is_some r.stream_options) (λ k h. ground arith)
          (λ k.
            if_elim P (ltb max_tools (length r.tools)) (λ l h. ground arith)
              (λ l h.
                let x =
                  then_accepted (validate_tools 0 r.tools [])
                    (validate_options S r (put_if r.stream capability_stream required)) caps h in
                options-IsRequired x.0 l (validate_tools-AreTools 0 r.tools [] x.0 x.1) x.2))

  -- A request that `validateRequest` accepts has an alias of the permitted form, 1 to 4096 messages, at most 128
  -- tools, which are functions with permitted names that are all different, a tool choice or a parallel setting only if there are tools,
  -- and not both token limits. The capabilities that it requires are in order, and are text, those that
  -- its messages ask for by their roles and tool calls, and those of streaming, tools and parallel tool calls where it asks for them,
  -- and no others.
  pub validate_request-IsRequired : validate_request S r ≡ accepted caps → IsRequired r caps
  unfolding validate_request
  validate_request-IsRequired =
      let P = λ (x : Checked (List String)). x ≡ accepted caps → IsRequired r caps in
      if_elim P (not (is_alias r.model)) (λ k h. ground arith)
        (λ k.
          if_elim P (is_empty r.messages || ltb max_messages (length r.messages))
            (λ l h. ground arith)
            (λ l h.
              let x =
                then_accepted (validate_messages S 0 r.messages (capability_text ∷ []))
                  (validate_stream S r) caps h in
              stream-IsRequired (not-false (is_alias r.model) k) l x.0
                (λ c. messages-Add S c 0 r.messages (capability_text ∷ []) x.0 x.1) x.2))
