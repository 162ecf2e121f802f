-- ===== src/Logging.antt =====
-- log/src/lib.rs: the level of the log that the environment variable sets, and what it lets through.
-- The date and the time are those of the crate chrono, and a parameter.
use nea.Base.{
  ℕ, ◌+◌, ◌≡◌, refl, arith, leb, ltb, ◌==◌, ◌++◌, ◌<◌, ◌↔◌, Bool, ◌&&◌, Option, none, some, [], ◌∷◌,
  if◌then◌else◌,
}
use nea.Text.{Text, codes, same, decimal}

abbrev lowercase_char : ℕ → ℕ
lowercase_char c = if leb 65 c && leb c 90 then c + 32 else c

to_ascii_lowercase : Text → Text
to_ascii_lowercase [] = []
to_ascii_lowercase (c ∷ s) = lowercase_char c ∷ to_ascii_lowercase s

-- The value that a message of a level is compared with; 2 before `init`.
level : Text → ℕ
level value =
    if same value (codes "error")
    then 0
    else if same value (codes "warn")
    then 1
    else if same value (codes "info")
    then 2
    else if same value (codes "debug")
    then 3
    else if same value (codes "trace")
    then 4
    else 2

init : Option Text → ℕ
init none = 2
init (some value) = level (to_ascii_lowercase value)

abbrev enabled : ℕ → ℕ → Bool
enabled log_level message = leb message log_level

-- The marks of the levels, in colour.
abbrev in_colour : Text → Text → Text
in_colour colour name = 27 ∷ (colour ++ (name ++ (27 ∷ codes "[0m")))

abbrev level_mark : ℕ → Text
level_mark message =
    if message == 0
    then in_colour (codes "[31m") (codes "ERROR")
    else if message == 1
    then in_colour (codes "[33m") (codes "WARN ")
    else if message == 2
    then in_colour (codes "[32m") (codes "INFO ")
    else if message == 3
    then in_colour (codes "[34m") (codes "DEBUG")
    else in_colour (codes "[36m") (codes "TRACE")

record Moment : Type 0 where
  year : ℕ
  month : ℕ
  day : ℕ
  hour : ℕ
  minute : ℕ
  second : ℕ

-- `{:02}`.
abbrev two_digits : ℕ → Text
two_digits n = if ltb n 10 then codes "0" ++ decimal n else decimal n

abbrev timestamp : Moment → Text
timestamp t =
    decimal t.year
    ++ (codes "-"
        ++ (two_digits t.month
            ++ (codes "-"
                ++ (two_digits t.day
                    ++ (codes "T"
                        ++ (two_digits t.hour
                            ++ (codes ":"
                                ++ (two_digits t.minute
                                    ++ (codes ":" ++ (two_digits t.second ++ codes "Z"))))))))))

-- `format_log`: the line of a message of a level, if it is printed.
format_log : ℕ → ℕ → Moment → Text → Text → Option Text
format_log log_level message t module_path msg =
    if enabled log_level message
    then some (
        codes "["
        ++ (timestamp t
            ++ (codes " "
                ++ (level_mark message ++ (codes " " ++ (module_path ++ (codes "] " ++ msg)))))))
    else none

-- A message is printed exactly if its number is at most the level's.
format_log_iff :
    (log_level message : ℕ) (t : Moment) (module_path msg : Text)
    → (format_log log_level message t module_path msg ≡ none) ↔ (log_level < message)
unfolding format_log
format_log_iff log_level message t module_path msg = (λ e. ground arith, λ lt. ground arith)

lowercase_char_idem : (c : ℕ) → lowercase_char (lowercase_char c) ≡ lowercase_char c
lowercase_char_idem c = ground arith

to_ascii_lowercase_idem :
    (s : Text) → to_ascii_lowercase (to_ascii_lowercase s) ≡ to_ascii_lowercase s
unfolding to_ascii_lowercase
to_ascii_lowercase_idem [] = refl
to_ascii_lowercase_idem (c ∷ s) = rw (lowercase_char_idem c) (rw (to_ascii_lowercase_idem s) refl)

-- The case of the letters does not matter.
init_case : (value : Text) → init (some (to_ascii_lowercase value)) ≡ init (some value)
unfolding init
init_case value = rw (to_ascii_lowercase_idem value) refl

shouted : init (some (codes "DEBUG")) ≡ 3
unfolding init level to_ascii_lowercase
shouted = refl
