-- ===== src/Start/Whole.antt =====
-- The whole program: `main`, an event of a client's socket, and the answer.
use instruction_parser.Server.{Server}
