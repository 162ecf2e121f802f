-- ===== src/Text/Lines.antt =====
-- Texts of several lines: how `split_once` and `lines` take apart what was joined.
use nea.Base.{
  ℕ, ◌==◌, ◌≡◌, refl, ap, ◌∙◌, arith, Bool, true, false, not, some, List, [], ◌∷◌, ◌++◌,
  append_assoc,
}
use nea.Text.Calls.{Text, avoids, strip_prefix, behind, split_once, crlf, blank_line, lines}
use nea.Text.Split.{behind-behind, split_once-avoids, split_once-at}

abbrev pub nonempty : Text → Bool
nonempty [] = false
nonempty (c ∷ s) = true

-- A line that is not empty, without its end.
pub record IsLine (l : Text) : Type 0 where
  pub no_cr : avoids 13 l ≡ true
  pub no_lf : avoids 10 l ≡ true
  pub some_text : nonempty l ≡ true

abbrev pub AllLines : List Text → Type 0
AllLines [] = Unit
AllLines (l ∷ ls) = IsLine l × AllLines ls

-- The lines, with the ends between them.
abbrev pub joined : Text → List Text → Text
joined l [] = l
joined l (m ∷ ms) = l ++ (crlf ++ joined m ms)

pub avoids-append :
    (x : ℕ) (s t : Text) → avoids x s ≡ true → avoids x t ≡ true → avoids x (s ++ t) ≡ true
avoids-append x [] t h k = k
avoids-append x (c ∷ s) t h k = ground (arith, avoids-append x s t)

abbrev no_cr_first : Text → Bool
no_cr_first [] = true
no_cr_first (c ∷ s) = not (c == 13)

line-no_cr_first : (l t : Text) → IsLine l → no_cr_first (l ++ t) ≡ true
line-no_cr_first [] t h = absurd (ground (arith, h.some_text))
line-no_cr_first (c ∷ l) t h = ground (arith, h.no_cr)

joined-no_cr_first :
    (l : Text) (ls : List Text) (t : Text) → IsLine l → no_cr_first (joined l ls ++ t) ≡ true
joined-no_cr_first l [] t h = line-no_cr_first l t h
joined-no_cr_first l (m ∷ ms) t h =
    rw (append_assoc l (crlf ++ joined m ms) t) (line-no_cr_first l ((crlf ++ joined m ms) ++ t) h)

-- The end of a line is no blank line if the next one is not empty.
one_end :
    (t : Text)
    → no_cr_first t ≡ true
    → split_once blank_line (crlf ++ t) ≡ behind crlf (split_once blank_line t)
unfolding split_once strip_prefix
one_end [] h = refl
one_end (c ∷ t) h =
    ground (arith, behind-behind (13 ∷ []) (10 ∷ []) (split_once blank_line (c ∷ t)))

-- The first blank line is the one behind the joined lines.
pub split_once-joined :
    (l : Text) (ls : List Text) (body : Text)
    → IsLine l
    → AllLines ls
    → split_once blank_line (joined l ls ++ (blank_line ++ body)) ≡ some (joined l ls, body)
split_once-joined l [] body h hs = split_once-at 13 (10 ∷ 13 ∷ 10 ∷ []) l body h.no_cr
split_once-joined l (m ∷ ms) body h (k, ks) =
    let t = joined m ms ++ (blank_line ++ body) in
    ap (split_once blank_line) (append_assoc l (crlf ++ joined m ms) (blank_line ++ body))
    ∙ split_once-avoids 13 (10 ∷ 13 ∷ 10 ∷ []) l (crlf ++ t) h.no_cr
    ∙ ap (behind l) (
        one_end t (joined-no_cr_first m ms (blank_line ++ body) k)
        ∙ ap (behind crlf) (split_once-joined m ms body k ks))

pub lines-step :
    (l t : Text) → avoids 13 l ≡ true → avoids 10 l ≡ true → lines (l ++ (crlf ++ t)) ≡ l ∷ lines t
unfolding lines
lines-step [] t h k = refl
lines-step (c ∷ l) t h k = ground (arith, lines-step l t)

last_line :
    (c : ℕ) (l : Text)
    → avoids 13 (c ∷ l) ≡ true
    → avoids 10 (c ∷ l) ≡ true
    → lines (c ∷ l) ≡ (c ∷ l) ∷ []
unfolding lines
last_line c [] h k = ground arith
last_line c (d ∷ l) h k = ground (arith, last_line d l)

lines-last : (l : Text) → IsLine l → lines l ≡ l ∷ []
lines-last [] h = absurd (ground (arith, h.some_text))
lines-last (c ∷ l) h = last_line c l h.no_cr h.no_lf

pub lines-joined :
    (l : Text) (ls : List Text) → IsLine l → AllLines ls → lines (joined l ls) ≡ l ∷ ls
lines-joined l [] h hs = lines-last l h
lines-joined l (m ∷ ms) h (k, ks) =
    lines-step l (joined m ms) h.no_cr h.no_lf ∙ ap (λ r. l ∷ r) (lines-joined m ms k ks)

-- With a blank line and a body behind them.
pub lines-message :
    (l : Text) (ls : List Text) (body : Text)
    → IsLine l
    → AllLines ls
    → lines (joined l ls ++ (blank_line ++ body)) ≡ (l ∷ ls) ++ ([] ∷ lines body)
lines-message l [] body h hs =
    lines-step l (crlf ++ body) h.no_cr h.no_lf ∙ ap (λ r. l ∷ r) (lines-step [] body refl refl)
lines-message l (m ∷ ms) body h (k, ks) =
    ap lines (append_assoc l (crlf ++ joined m ms) (blank_line ++ body))
    ∙ lines-step l (joined m ms ++ (blank_line ++ body)) h.no_cr h.no_lf
    ∙ ap (λ r. l ∷ r) (lines-message m ms body k ks)
