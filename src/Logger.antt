-- ===== src/Logger.antt =====
-- src/simple-dnsd/utils/logger.cpp. The local time is a parameter: its text, or `none` where it cannot be
-- had. What is written is returned: the lines for the error stream and those for the log file, which is
-- opened to append.
use simple_dnsd.Base.{
  ℕ, Bool, not, ◌||◌, Option, none, some, List, [], ◌∷◌, ◌++◌, ltb, if◌then◌else◌, Bytes, codes,
  str_eq, is_empty,
}
use simple_dnsd.Text.{to_lower}

pub data LogLevel : Type 0 where
  debug info warning error fatal : LogLevel

-- `levelName`
abbrev pub level_name : LogLevel → Bytes
level_name debug = codes "DEBUG"
level_name info = codes "INFO"
level_name warning = codes "WARN"
level_name error = codes "ERROR"
level_name fatal = codes "FATAL"

-- The value of the enumeration, by which `<` compares.
abbrev pub severity : LogLevel → ℕ
severity debug = 0
severity info = 1
severity warning = 2
severity error = 3
severity fatal = 4

-- `parseLogLevel`, `none` where it returns false.
unfoldable pub parse_log_level : Bytes → Option LogLevel
unfolding to_lower
parse_log_level name =
    let lower = to_lower name in
    if str_eq lower (codes "debug")
    then some debug
    else if str_eq lower (codes "info")
    then some info
    else if str_eq lower (codes "warning") || str_eq lower (codes "warn")
    then some warning
    else if str_eq lower (codes "error")
    then some error
    else if str_eq lower (codes "fatal")
    then some fatal
    else none

pub record Logger : Type 0 where
  pub level : LogLevel
  pub log_file : Bytes

-- What one call writes.
pub record Written : Type 0 where
  pub on_stderr : List Bytes
  pub in_file : List Bytes

-- The line behind the time.
unfoldable pub log_line : Bytes → LogLevel → Bytes → Bytes
log_line time level message = time ++ (codes " [" ++ (level_name level ++ (codes "] " ++ message)))

-- `Logger::log`; `opens` says that the log file can be opened.
unfoldable pub log : Logger → Option Bytes → Bool → LogLevel → Bytes → Written
unfolding log_line
log logger time opens level message =
    if ltb (severity level) (severity logger.level)
    then record { on_stderr = []; in_file = [] }
    else elim time [
      | none ↦ record { on_stderr = message ∷ []; in_file = [] }
      | some t ↦
          (let line = log_line t level message ∷ [] in
            record {
              on_stderr = line;
              in_file = if not (is_empty logger.log_file) then (if opens then line else []) else [];
            })
    ]
