-- ===== src/Steering/Guards/Burst.antt =====
-- `ToolCallBurstGuard` of src/draftly/steering/tool_call_burst_guard.py.
use draftly_agent_backend.Prelude.{
  ℕ, suc, String, append_str, show_nat, Bool, true, false, Option, none, some, nat_eq, string_eq,
  leb, if◌then◌else◌, Json, array, object, Items, nil, cons, get_field,
}
use draftly_agent_backend.Steering.Guards.{Action, proceed, guide}

pub record Guard : Type 0 where
  pub max_tool_calls_per_message : ℕ
  pub guided : Bool

-- `before_invocation`
abbrev pub before_invocation : Guard → Action × Guard
before_invocation g = (proceed, record g { guided = false })

abbrev pub has_key : Option Json → Bool
has_key none = false
has_key (some v) = true

-- `isinstance(block, dict) and "toolUse" in block`
abbrev pub is_tool_use : Json → Bool
is_tool_use (object fields) = has_key (get_field "toolUse" fields)
is_tool_use _ = false

unfoldable pub count_blocks : Items → ℕ
count_blocks nil = 0
count_blocks (cons block rest) = let n = count_blocks rest in if is_tool_use block then suc n else n

abbrev content_count : Option Json → ℕ
content_count (some (array blocks)) = count_blocks blocks
content_count _ = 0

-- `_count_tool_uses`, of the message if there is one.
abbrev pub count_tool_uses : Option Json → ℕ
count_tool_uses (some (object message)) = content_count (get_field "content" message)
count_tool_uses _ = 0

-- `_BURST_FEEDBACK`
abbrev pub feedback : ℕ → ℕ → String
feedback count limit = append_str "That response requested " (
    append_str (show_nat count) (
      append_str
        " tool calls at once, which cannot complete: the output was truncated and none of them ran. Decide what you need, then issue at most "
        (append_str (show_nat limit)
          " tool calls in this response — one at a time, waiting for each result. If you have already gathered the evidence, draft the page.")))

-- `after_model_call`
unfoldable pub after_model_call : Option Json → Guard → Action × Guard
unfolding count_blocks
after_model_call message g =
    let count = count_tool_uses message in
    if g.guided
    then (proceed, g)
    else if leb count g.max_tool_calls_per_message
    then (proceed, g)
    else (guide (feedback count g.max_tool_calls_per_message), record g { guided = true })
