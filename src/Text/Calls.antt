-- ===== src/Text/Calls.antt =====
-- The calls on strings, as the standard library documents them.
use Prim.Native.Char.{code}
use Prim.Native.String.{String}
use nea.Base.{
  ℕ, ◌+◌, leb, ltb, ◌==◌, Bool, true, false, ◌&&◌, ◌||◌, not, Option, none, some, List, [], ◌∷◌,
  ◌++◌, if◌then◌else◌,
}

abbrev pub Text : Type 0
Text = List ℕ

-- The code points of a literal.
abbrev pub codes : String → Text
codes String.[] = []
codes (String.◌∷◌ c s) = code c ∷ codes s

abbrev pub same : Text → Text → Bool
same [] [] = true
same [] (d ∷ t) = false
same (c ∷ s) [] = false
same (c ∷ s) (d ∷ t) = c == d && same s t

-- No character of the text is this one.
abbrev pub avoids : ℕ → Text → Bool
avoids x [] = true
avoids x (c ∷ s) = not (c == x) && avoids x s

unfoldable pub strip_prefix : Text → Text → Option Text
strip_prefix [] s = some s
strip_prefix (c ∷ p) [] = none
strip_prefix (c ∷ p) (d ∷ s) = let rest = strip_prefix p s in if c == d then rest else none

-- A split of what stands behind `front`.
abbrev pub behind : Text → Option (Text × Text) → Option (Text × Text)
behind front none = none
behind front (some (a, b)) = some (front ++ a, b)

abbrev pub or_split : Option Text → Option (Text × Text) → Option (Text × Text)
or_split none later = later
or_split (some rest) later = some ([], rest)

-- The texts on both sides of the first place where the pattern stands.
unfoldable pub split_once : Text → Text → Option (Text × Text)
split_once p [] = or_split (strip_prefix p []) none
split_once p (c ∷ s) = or_split (strip_prefix p (c ∷ s)) (behind (c ∷ []) (split_once p s))

abbrev pub attach : ℕ → List Text → List Text
attach c [] = (c ∷ []) ∷ []
attach c (line ∷ rest) = (c ∷ line) ∷ rest

abbrev pub starts_newline : Text → Bool
starts_newline [] = false
starts_newline (c ∷ s) = c == 10

-- A line ends with a line feed, with a carriage return in front of it or without; the last one may
-- have none.
unfoldable pub lines : Text → List Text
lines [] = []
lines (c ∷ s) =
    let rest = lines s in
    if c == 10 then [] ∷ rest else if c == 13 && starts_newline s then rest else attach c rest

-- The characters of Unicode's property White_Space.
unfoldable pub is_whitespace : ℕ → Bool
is_whitespace c =
    leb 9 c && leb c 13
    || c == 32
    || c == 133
    || c == 160
    || c == 5760
    || leb 8192 c && leb c 8202
    || c == 8232
    || c == 8233
    || c == 8239
    || c == 8287
    || c == 12288

abbrev pub ends_word : Text → Bool
ends_word [] = true
ends_word (c ∷ s) = is_whitespace c

unfoldable pub split_whitespace : Text → List Text
split_whitespace [] = []
split_whitespace (c ∷ s) =
    let rest = split_whitespace s in
    if is_whitespace c then rest else if ends_word s then (c ∷ []) ∷ rest else attach c rest

-- The number of bytes of a text in UTF-8.
abbrev pub len_utf8 : ℕ → ℕ
len_utf8 c = if ltb c 128 then 1 else if ltb c 2048 then 2 else if ltb c 65536 then 3 else 4

unfoldable pub len : Text → ℕ
len [] = 0
len (c ∷ s) = len_utf8 c + len s

-- The two characters at the end of a line, and the two ends behind the last header.
abbrev pub crlf : Text
crlf = 13 ∷ 10 ∷ []

abbrev pub blank_line : Text
blank_line = 13 ∷ 10 ∷ 13 ∷ 10 ∷ []
