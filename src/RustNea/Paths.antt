-- ===== src/RustNea/Paths.antt =====
-- benchmarks/rust-nea/src/bin/csv-svg-path.rs: the path that is drawn through the points of a body.
use nea.Base.{
  ℕ, zero, suc, ◌+◌, ◌-◌, ◌*◌, ◌/◌, ◌%◌, ◌^◌, ◌<◌, ◌≡◌, refl, sym, append_assoc, append-nil, ap,
  ◌∙◌, arith, ltb, leb, ◌==◌, true, ◌&&◌, Option, none, some, List, [], ◌∷◌, ◌++◌, if◌then◌else◌,
  Result, ok, panic, ◌>>=◌, unwrap_failed,
}
use nea.Text.{
  Text, nonempty, decimal-nonempty, codes, strip_prefix, split_once, lines, decimal, digits,
  digits-avoids, avoids, avoids-append, split_once-at, lines-joined, joined, IsLine, AllLines,
}
use nea.RustNea.{format_response}

-- A digit behind those already read; a number of more than 64 bits is an error.
abbrev push_digit : ℕ → ℕ → Option ℕ
push_digit n c =
    let n' = n * 10 + (c - 48) in if leb 48 c && leb c 57 && ltb n' (2 ^ 64) then some n' else none

abbrev and_digits : Option ℕ → (ℕ → Option ℕ) → Option ℕ
and_digits none rest = none
and_digits (some n) rest = rest n

read_digits : ℕ → Text → Option ℕ
read_digits n [] = some n
read_digits n (c ∷ s) = and_digits (push_digit n c) (λ m. read_digits m s)

-- `parse::<usize>`; a plus sign may stand in front.
pub parse_usize : Text → Option ℕ
parse_usize [] = none
parse_usize (c ∷ []) = read_digits 0 (c ∷ [])
parse_usize (c ∷ d ∷ s) = if c == 43 then read_digits 0 (d ∷ s) else read_digits 0 (c ∷ d ∷ s)

abbrev pub unwrap : Option ℕ → Result ℕ
unwrap none = panic unwrap_failed
unwrap (some n) = ok n

-- One line onto the path; a line without the separator is passed over.
abbrev draw : Text → Option (Text × Text) → Result Text
draw path none = ok path
draw path (some (x_str, y_str)) = do
  x ← unwrap (parse_usize x_str)
  y ← unwrap (parse_usize y_str)
  ok (path ++ (decimal x ++ (codes " " ++ decimal y)))

draw_all : Text → List Text → Result Text
draw_all path [] = ok path
draw_all path (line ∷ rest) =
    draw path (split_once (codes ", ") line) >>= λ path'. draw_all path' rest

abbrev pub svg : Text → Text
svg path_string =
    codes "<svg width=\"100\" height=\"100\" xmlns=\"http://www.w3.org/2000/svg\">\n    <path d=\""
    ++ (path_string ++ codes "\" stroke=\"black\" fill=\"transparent\"/>\n</svg>\n")

pub respond : Text → Result Text
respond body = draw_all (codes "M 0 0 L") (lines body) >>= λ path_string.
    ok (format_response (svg path_string))

-- Different points give the same path, as nothing stands between two of them.
run_together : respond (codes "1, 23\n4, 5") ≡ respond (codes "1, 2\n34, 5")
unfolding respond lines split_once strip_prefix digits draw_all parse_usize read_digits
run_together = refl

read_digits-append :
    (n : ℕ) (s : Text) (c : ℕ)
    → read_digits n (s ++ (c ∷ [])) ≡ and_digits (read_digits n s) (λ m. push_digit m c)
unfolding read_digits
read_digits-append n [] c = last (push_digit n c)
  where
    last : (o : Option ℕ) → and_digits o (λ m. some m) ≡ o
    last none = refl
    last (some m) = refl
read_digits-append n (d ∷ s) c = go (push_digit n d) (λ m. read_digits-append m s c)
  where
    go :
        (o : Option ℕ)
        → ((m : ℕ)
            → read_digits m (s ++ (c ∷ [])) ≡ and_digits (read_digits m s) (λ k. push_digit k c))
        → and_digits o (λ m. read_digits m (s ++ (c ∷ [])))
          ≡ and_digits (and_digits o (λ m. read_digits m s)) (λ k. push_digit k c)
    go none h = refl
    go (some m) h = h m

pow_suc : (k : ℕ) → 10 ^ suc k ≡ 10 ^ k * 10
pow_suc k = omega arith

read_digits-digits :
    (fuel n : ℕ) → n < 10 ^ fuel → n < 2 ^ 64 → read_digits 0 (digits fuel n) ≡ some n
unfolding digits read_digits
read_digits-digits zero n lt small = ground arith
read_digits-digits (suc fuel) n lt small = ground (
  arith,
  pow_suc fuel,
  read_digits-digits fuel (n / 10),
  read_digits-append 0 (digits fuel (n / 10)) (48 + n % 10),
)

parse_usize-plain :
    (s : Text) (n : ℕ)
    → avoids 43 s ≡ true
    → nonempty s ≡ true
    → read_digits 0 s ≡ some n
    → parse_usize s ≡ some n
unfolding parse_usize
parse_usize-plain [] n h some_text e = absurd (ground arith)
parse_usize-plain (c ∷ []) n h some_text e = e
parse_usize-plain (c ∷ d ∷ s) n h some_text e = ground (arith, e)

pub parse_usize-decimal : (n : ℕ) → n < 2 ^ 64 → parse_usize (decimal n) ≡ some n
parse_usize-decimal n lt =
    parse_usize-plain (decimal n) n (digits-avoids 43 20 n (omega arith)) (decimal-nonempty n)
      (read_digits-digits 20 n (omega arith) lt)

-- The line of a point in a body, and its text in the path.
abbrev pub point_line : ℕ × ℕ → Text
point_line (x, y) = decimal x ++ (codes ", " ++ decimal y)

abbrev pub point_lines : List (ℕ × ℕ) → List Text
point_lines [] = []
point_lines (p ∷ ps) = point_line p ∷ point_lines ps

abbrev pub drawn : List (ℕ × ℕ) → Text
drawn [] = []
drawn ((x, y) ∷ ps) = (decimal x ++ (codes " " ++ decimal y)) ++ drawn ps

abbrev pub AllSmall : List (ℕ × ℕ) → Type 0
AllSmall [] = Unit
AllSmall ((x, y) ∷ ps) = ((x < 2 ^ 64) × (y < 2 ^ 64)) × AllSmall ps

line_avoids : (c x y : ℕ) → c < 32 → avoids c (point_line (x, y)) ≡ true
line_avoids c x y lt =
    avoids-append c (decimal x) (codes ", " ++ decimal y) (digits-avoids c 20 x (omega arith))
      (ground (arith, digits-avoids c 20 y))

nonempty-front : (s t : Text) → nonempty s ≡ true → nonempty (s ++ t) ≡ true
nonempty-front [] t h = absurd (ground arith)
nonempty-front (c ∷ s) t h = refl

point_line-IsLine : (p : ℕ × ℕ) → IsLine (point_line p)
point_line-IsLine (x, y) = record {
  no_cr = line_avoids 13 x y (omega arith);
  no_lf = line_avoids 10 x y (omega arith);
  some_text = nonempty-front (decimal x) (codes ", " ++ decimal y) (decimal-nonempty x);
}

point_lines-AllLines : (ps : List (ℕ × ℕ)) → AllLines (point_lines ps)
point_lines-AllLines [] = tt
point_lines-AllLines (p ∷ ps) = (point_line-IsLine p, point_lines-AllLines ps)

draw-point :
    (path : Text) (x y : ℕ)
    → x < 2 ^ 64
    → y < 2 ^ 64
    → draw path (split_once (codes ", ") (point_line (x, y)))
      ≡ ok (path ++ (decimal x ++ (codes " " ++ decimal y)))
draw-point path x y x_lt y_lt =
    rw (split_once-at 44 (32 ∷ []) (decimal x) (decimal y) (digits-avoids 44 20 x (omega arith)))
      (rw (parse_usize-decimal x x_lt) (rw (parse_usize-decimal y y_lt) refl))

draw_all-points :
    (path : Text) (ps : List (ℕ × ℕ))
    → AllSmall ps
    → draw_all path (point_lines ps) ≡ ok (path ++ drawn ps)
unfolding draw_all
draw_all-points path [] small = ap (λ p. ok p) (sym (append-nil path))
draw_all-points path ((x, y) ∷ ps) ((x_lt, y_lt), small) =
    let point = decimal x ++ (codes " " ++ decimal y) in
    rw (draw-point path x y x_lt y_lt) (
      draw_all-points (path ++ point) ps small
      ∙ ap (λ p. ok p) (append_assoc path point (drawn ps)))

-- A body of points, each on a line of its own as two numbers below 2^64 with a comma and a space,
-- is answered with the response around the drawing whose path starts with `M 0 0 L` and has behind
-- that the points, each as its numbers with a space between, and nothing between two points.
pub respond-points :
    (p : ℕ × ℕ) (ps : List (ℕ × ℕ))
    → AllSmall (p ∷ ps)
    → respond (joined (point_line p) (point_lines ps))
      ≡ ok (format_response (svg (codes "M 0 0 L" ++ drawn (p ∷ ps))))
unfolding respond
respond-points p ps small =
    rw
      (lines-joined (point_line p) (point_lines ps) (point_line-IsLine p) (point_lines-AllLines ps))
      (rw (draw_all-points (codes "M 0 0 L") (p ∷ ps) small) refl)
