-- ===== src/Config/Env.antt =====
-- internal/config/config.go: the readers of one environment variable, and the loops over the names.
-- `parse` stands for `time.ParseDuration` and for `strconv.Atoi`.
use plata_test_task.Prelude.{
  ℕ, ℤ, pos, leb_ℤ, ltb_ℤ, Text, codes, text_eq, Bool, List, [], ◌∷◌, map, ◌+◌, ◌==◌, ◌&&◌, leb,
  if◌then◌else◌, ◌||◌,
}
use plata_test_task.Errors.{Message, text, quoted, ◌<>◌, Result, ok, err, other, ◌>>=◌}
use plata_test_task.Provider.{Parsed, parsed, unparsed}
use plata_test_task.Config.{Config, Level, level_debug, level_info, level_warn, level_error}

-- The outcome of a parse, or the error that wraps the parser's.
invalid_setting : Text → Text → Message → Message
invalid_setting name v m =
    text (codes "config: invalid ")
    <> text name
    <> text (codes " ")
    <> quoted v
    <> text (codes ": ")
    <> m

-- What follows the parse, `refused` being the test on the value.
unfoldable pub checked_setting : (ℤ → Bool) → Text → Text → Text → Parsed ℤ → Result ℤ
unfolding invalid_setting
checked_setting refused must name v (unparsed m) = err (other (invalid_setting name v m))
checked_setting refused must name v (parsed d) =
    if refused d
    then err (
        other
          (text (codes "config: ") <> text name <> text must <> text (codes ", got ") <> quoted v))
    else ok d

module _ (parse : Text → Parsed ℤ) (getenv : Text → Text) where
  -- durationEnv and intEnv: a positive value, or the default where the variable is unset.
  unfoldable pub positive_env : Text → ℤ → Result ℤ
  unfolding checked_setting
  positive_env name def =
      if text_eq (getenv name) []
      then ok def
      else checked_setting (λ d. leb_ℤ d (pos 0)) (codes " must be positive") name (getenv name)
          (parse (getenv name))

  -- nonNegativeDurationEnv and nonNegativeIntEnv: zero is accepted too.
  unfoldable pub non_negative_env : Text → ℤ → Result ℤ
  unfolding checked_setting
  non_negative_env name def =
      if text_eq (getenv name) []
      then ok def
      else checked_setting (λ d. ltb_ℤ d (pos 0)) (codes " must not be negative") name (getenv name)
          (parse (getenv name))

-- `struct { name string; dst *time.Duration }`, and the one with `dst *int`: the pointer to a field
-- is its reading and its writing.
pub record Setting : Type 0 where
  pub name : Text
  pub get : Config → ℤ
  pub set : ℤ → Config → Config

-- `for _, d := range settings { if *d.dst, err = read(getenv, d.name, *d.dst); err != nil { ... } }`
unfoldable pub load_settings : (Text → ℤ → Result ℤ) → List Setting → Config → Result Config
load_settings read [] cfg = ok cfg
load_settings read (s ∷ ss) cfg = do
  v ← read s.name (s.get cfg)
  load_settings read ss (s.set v cfg)

-- `unicode.ToLower` on the letters of ASCII and on the two others whose lower case is one of them;
-- any other code point, which no accepted word holds, is left as it is.
unfoldable pub lower : ℕ → ℕ
lower c =
    if leb b'A' c && leb c b'Z'
    then c + 32
    else if c == 0x130
    then b'i'
    else if c == 0x212a
    then b'k'
    else c

unfoldable pub to_lower : Text → Text
unfolding lower
to_lower = map lower

unfoldable pub parse_log_level : Text → Result Level
parse_log_level v =
    let word = to_lower v in
    if text_eq word (codes "debug")
    then ok level_debug
    else if text_eq word (codes "info")
    then ok level_info
    else if text_eq word (codes "warn") || text_eq word (codes "warning")
    then ok level_warn
    else if text_eq word (codes "error")
    then ok level_error
    else err (
        other (
          text (codes "config: invalid LOG_LEVEL ")
          <> quoted v
          <> text (codes ": must be debug, info, warn, or error")))
