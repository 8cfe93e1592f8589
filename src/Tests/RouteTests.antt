-- ===== src/Tests/RouteTests.antt =====
-- From the receive buffer to the queue.
use instruction_parser.Prelude.{ℕ, zero, suc, Option, some, none, replicate}
use instruction_parser.Frame.{CmdFrame}
use instruction_parser.Registry.{Links}
use instruction_parser.Queue.{CircleQueue}
use instruction_parser.Tests.ProtocolTests.{stale}

abbrev pub after : ℕ → Option ℕ
after zero = some 1
after (suc zero) = some 2
after (suc (suc n)) = none

abbrev pub ready : Links
ready = record { head = some 0; next = after }

abbrev pub empty_queue : CircleQueue CmdFrame
empty_queue = record { slots = replicate 100 stale; front = 0; tail = 0 }
