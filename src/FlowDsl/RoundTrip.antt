-- ===== src/FlowDsl/RoundTrip.antt =====
-- parseExpectLine of pkg/flowdsl/expect.go on the lines of checkLine in pkg/flowdsl/decompile.go.
use echopoint_runner.FlowDsl.Lines.{operand_line}
use echopoint_runner.FlowDsl.Reading.{checked}
use echopoint_runner.FlowDsl.{Conversions, ExtractorType, parse_expect_line}
use echopoint_runner.Prelude.Text.{Text}
use echopoint_runner.Prelude.{some, ◌≡◌}
use echopoint_runner.Value.{Fields}

-- A check with a target and an operand that a flow file can hold, and the line it is written as.
abbrev Reread : Conversions → Text → ExtractorType → Fields → Text → Fields → Type 0
Reread lib written type config op operand =
    (line : Text) × (operand_line lib written op operand ≡ some line)
    × (parse_expect_line lib line ≡ some (checked type config op operand))
