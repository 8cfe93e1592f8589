-- ===== src/Logger.antt =====
-- common/logger.c: the functions that hand a message to the logging library. What the library does
-- with it is outside; `logger_init` is with the program's start.
use instruction_parser.Prelude.{ℕ, ℤ, List, [], ◌∷◌}

-- What a caller passes behind the format, and what the library gets: a `va_list` is one argument that
-- stands for several.
pub data Value : Type 0 where
  number : ℤ → Value
  string : List ℕ → Value

pub data Arg : Type 0 where
  value : Value → Arg
  va_list : List Value → Arg

-- `zlog` with its level and format, on the one category, and `zlog_fini`.
pub record Zlog (E : Type 0) : Type 0 where
  pub zlog : ℕ → List ℕ → List Arg → E → E
  pub zlog_fini : E → E

-- `ZLOG_LEVEL_ERROR`, `ZLOG_LEVEL_INFO`, `ZLOG_LEVEL_DEBUG`
abbrev level_error : ℕ
level_error = 100

abbrev level_info : ℕ
level_info = 40

abbrev level_debug : ℕ
level_debug = 20

module _ {E : Type 0} (lib : Zlog E) where
  unfoldable pub logger_error : List ℕ → List Value → E → E
  logger_error format args e = lib.zlog level_error format (va_list args ∷ []) e

  unfoldable pub logger_info : List ℕ → List Value → E → E
  logger_info format args e = lib.zlog level_info format (va_list args ∷ []) e

  unfoldable pub logger_debug : List ℕ → List Value → E → E
  logger_debug format args e = lib.zlog level_debug format (va_list args ∷ []) e

  unfoldable pub logger_exit : E → E
  logger_exit e = lib.zlog_fini e
