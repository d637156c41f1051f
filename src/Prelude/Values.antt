-- ===== src/Prelude/Values.antt =====
-- How Python reads a JSON value: its truth, its text, and whether it is a text that says something.

use Prim.Native.String.{String}
use mathlib.Core.Bool.{Bool, true, false, not, ◌||◌}
use mathlib.Core.Option.{Option, none, some}
use draftly_agent_backend.Prelude.Tests.{◌==◌, nat_eq, string_eq, if◌then◌else◌}
use draftly_agent_backend.Prelude.Text.{is_empty, strip, show_nat}
use draftly_agent_backend.Prelude.JsonValues.{
  Json, null, bool, int, number, str, array, object, nil, cons, end, field,
}

-- `bool(value)`; a number that is no natural number is zero as `0.0` or `-0.0` alone.
abbrev pub is_true : Json → Bool
is_true null = false
is_true (bool b) = b
is_true (int n) = not (n == 0)
is_true (number s) = not (s == "0.0" || s == "-0.0")
is_true (str s) = not (is_empty s)
is_true (array nil) = false
is_true (array (cons x xs)) = true
is_true (object end) = false
is_true (object (field k v rest)) = true

-- The truth of `tool_use.get(key)`.
abbrev pub is_given : Option Json → Bool
is_given none = false
is_given (some v) = is_true v

-- `tool_use.get(a) or tool_use.get(b)`
abbrev pub or_else : Option Json → Option Json → Option Json
or_else first second = if is_given first then first else second

-- `isinstance(value, str) and value.strip()`
unfoldable pub is_nonblank : Option Json → Bool
unfolding strip
is_nonblank (some (str s)) = not (is_empty (strip s))
is_nonblank _ = false

-- `value == text`
abbrev pub is_text : String → Option Json → Bool
is_text text (some (str s)) = s == text
is_text text _ = false

-- `str(value)`, where `repr` writes a list or a mapping.
unfoldable pub shown : (Json → String) → Option Json → String
unfolding show_nat
shown repr none = "None"
shown repr (some null) = "None"
shown repr (some (bool b)) = if b then "True" else "False"
shown repr (some (int n)) = show_nat n
shown repr (some (number s)) = s
shown repr (some (str s)) = s
shown repr (some (array xs)) = repr (array xs)
shown repr (some (object fields)) = repr (object fields)

-- `str(value or default)`
unfoldable pub text_or : (Json → String) → Option Json → String → String
unfolding shown
text_or repr v default = if is_given v then shown repr v else default
