-- ===== src/Tests/WholeTests.antt =====
-- The whole program at one request.
use instruction_parser.Server.{Server}
