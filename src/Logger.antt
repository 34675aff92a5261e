-- ===== src/Logger.antt =====
-- Logger.h and Logger.cc: the one log, which prints to the standard output. Texts are lists of
-- characters, and the text of the time is an argument. LOG_DEBUG is empty, as where MUDBUG is not set.
use mynuduo.Base.{ℕ, List, [], ◌∷◌, ◌++◌, take}

-- `enum LogLevel`
pub data LogLevel : Type 0 where
  info error fatal debug : LogLevel

-- `out` is what has been printed.
pub record Logger : Type 0 where
  pub log_level : LogLevel
  pub out : List ℕ

pub set_log_level : LogLevel → Logger → Logger
set_log_level level l = record l { log_level = level }

abbrev pub info_tag : List ℕ
info_tag = 91 ∷ 73 ∷ 78 ∷ 70 ∷ 79 ∷ 93 ∷ []

abbrev pub error_tag : List ℕ
error_tag = 91 ∷ 69 ∷ 82 ∷ 82 ∷ 79 ∷ 82 ∷ 93 ∷ []

abbrev pub fatal_tag : List ℕ
fatal_tag = 91 ∷ 70 ∷ 65 ∷ 84 ∷ 65 ∷ 76 ∷ 93 ∷ []

abbrev pub debug_tag : List ℕ
debug_tag = 91 ∷ 68 ∷ 69 ∷ 66 ∷ 85 ∷ 71 ∷ 93 ∷ []

-- The `switch` of `log`: the cases after INFO have no `break`.
pub tags : LogLevel → List ℕ
tags info = info_tag
tags error = error_tag ++ fatal_tag ++ debug_tag
tags fatal = fatal_tag ++ debug_tag
tags debug = debug_tag

-- The characters between are those of ` : ` and the end of the line.
pub log : List ℕ → List ℕ → Logger → Logger
unfolding tags
log time msg l = record l {
  out = l.out ++ tags l.log_level ++ time ++ 32 ∷ 58 ∷ 32 ∷ msg ++ 10 ∷ [];
}

-- LOG_FATAL ends the process after its line.
pub data After : Type 0 where
  goes_on exits : Logger → After

-- The macros: `text` is the whole of the formatted text, of which 1023 characters fit.
pub log_at : LogLevel → List ℕ → List ℕ → Logger → Logger
unfolding set_log_level log
log_at level time text l = log time (take 1023 text) (set_log_level level l)

pub log_info : List ℕ → List ℕ → Logger → After
unfolding log_at
log_info time text l = goes_on (log_at info time text l)

pub log_error : List ℕ → List ℕ → Logger → After
unfolding log_at
log_error time text l = goes_on (log_at error time text l)

pub log_fatal : List ℕ → List ℕ → Logger → After
unfolding log_at
log_fatal time text l = exits (log_at fatal time text l)
