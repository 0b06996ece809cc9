-- ===== src/Chat.antt =====
-- The data of internal/chatcompletions/request.go.
use modelcairn.Base.{ℤ, String, Bool, Option, List}
use modelcairn.Json.{Json}
pub mod Shape
pub mod Tokens
pub mod Complete
pub mod Sound
pub mod Accepts
pub mod Fuel
pub mod Messages
pub mod Validate
pub mod Needs
pub mod Required

-- A finite float64, exactly: the number of units of 2^-1074 in it. JSON holds no other.
abbrev pub Float : Type 0
Float = ℤ

pub record ToolCallFunction : Type 0 where
  pub name : String
  pub arguments : String

pub record ToolCall : Type 0 where
  pub id : String
  pub type : String
  pub function : ToolCallFunction

pub record Message : Type 0 where
  pub role : String
  pub content : Option Json
  pub name : String
  pub tool_call_id : String
  pub tool_calls : List ToolCall

pub record FunctionTool : Type 0 where
  pub name : String
  pub description : String
  pub parameters : Option Json
  pub strict : Option Bool

pub record Tool : Type 0 where
  pub type : String
  pub function : FunctionTool

pub record StreamOptions : Type 0 where
  pub include_usage : Bool

pub record Request : Type 0 where
  pub model : String
  pub messages : List Message
  pub stream : Bool
  pub stream_options : Option StreamOptions
  pub tools : List Tool
  pub tool_choice : Option Json
  pub parallel_tool_calls : Option Bool
  pub temperature : Option Float
  pub top_p : Option Float
  pub max_tokens : Option ℤ
  pub max_completion_tokens : Option ℤ
