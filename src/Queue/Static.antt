-- ===== src/Queue/Static.antt =====
-- The calls on `cmd_circle_queue`, the one queue of the program. It is passed on explicitly.
use instruction_parser.Prelude.{ℤ, Option}
use instruction_parser.Frame.{CmdFrame}
use instruction_parser.Queue.{
  CircleQueue, init_circle_queue, push_element, pop_element, get_head_element,
}

abbrev pub CmdQueue : Type 0
CmdQueue = CircleQueue CmdFrame

unfoldable pub init_cmd_queue : Option CmdQueue → CmdQueue → ℤ × Option CmdQueue × CmdQueue
init_cmd_queue = init_circle_queue

unfoldable pub push_cmd_queue : CmdQueue → CmdFrame → ℤ × CmdQueue
push_cmd_queue = push_element

unfoldable pub pop_cmd_queue : CmdQueue → ℤ × Option CmdFrame × CmdQueue
pop_cmd_queue = pop_element

unfoldable pub get_cmd_head : CmdQueue → ℤ × Option CmdFrame
get_cmd_head = get_head_element
