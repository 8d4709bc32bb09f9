-- ===== src/Agents/Autonomy.antt =====
-- packages/strategy-engine/src/agents/autonomy.py: `AutonomyManager`, over the value of its key.
use clartt_capital.Common.{Option, none, some, String, str_eq, if◌then◌else◌}

pub data AutonomyMode : Type 0 where
  approval full_autonomy : AutonomyMode

unfoldable pub mode_text : AutonomyMode → String
mode_text approval = "approval"
mode_text full_autonomy = "full_autonomy"

-- `AutonomyMode(text)`: a text that names no mode is the ValueError, for which the callers fall back to
-- `approval`.
unfoldable pub mode_or_approval : String → AutonomyMode
mode_or_approval text = if str_eq text "full_autonomy" then full_autonomy else approval

-- The constructor, with the environment variable.
unfoldable pub init : (env : Option String) → Option String → Option String
unfolding mode_text mode_or_approval
init env (some stored) = some stored
init none none = some (mode_text approval)
init (some default) none = some (mode_text (mode_or_approval default))

unfoldable pub get_mode : Option String → AutonomyMode
unfolding mode_or_approval
get_mode none = approval
get_mode (some raw) = mode_or_approval raw

unfoldable pub set_mode : AutonomyMode → Option String → Option String
unfolding mode_text
set_mode mode stored = some (mode_text mode)
