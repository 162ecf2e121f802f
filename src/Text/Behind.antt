-- ===== src/Text/Behind.antt =====
-- `split_once` of a text with more behind it.
use nea.Base.{
  ℕ, ◌≤◌, ◌≡◌, refl, sym, ap, ◌∙◌, arith, Option, none, some, [], ◌∷◌, ◌++◌, length, length-append,
}
use nea.Text.Calls.{Text, strip_prefix, behind, or_split, split_once}
use nea.Text.Split.{split_once_sound, behind-cases}

strip_prefix-behind :
    (p s t r : Text) → strip_prefix p s ≡ some r → strip_prefix p (s ++ t) ≡ some (r ++ t)
unfolding strip_prefix
strip_prefix-behind [] s t r e = ground arith
strip_prefix-behind (c ∷ p) [] t r e = absurd (ground arith)
strip_prefix-behind (c ∷ p) (d ∷ s) t r e = ground (arith, strip_prefix-behind p s t r)

-- A text that is long enough for the pattern, and does not start with it.
strip_prefix-long :
    (p s t : Text) → length p ≤ length s → strip_prefix p s ≡ none → strip_prefix p (s ++ t) ≡ none
unfolding strip_prefix length
strip_prefix-long [] s t long e = absurd (ground arith)
strip_prefix-long (c ∷ p) [] t long e = absurd (omega arith)
strip_prefix-long (c ∷ p) (d ∷ s) t long e =
    let shorter : length p ≤ length s = omega arith in
    ground (arith, strip_prefix-long p s t shorter)

-- The pattern fits into a text in which it stands.
split_once-length : (p s a b : Text) → split_once p s ≡ some (a, b) → length p ≤ length s
split_once-length p s a b e =
    omega
      (arith, ap length (split_once_sound p s a b e), length-append a (p ++ b), length-append p b)

longer : (c : ℕ) (s p : Text) → length p ≤ length s → length p ≤ length (c ∷ s)
unfolding length
longer c s p le = omega arith

split_once-start : (p u r : Text) → strip_prefix p u ≡ some r → split_once p u ≡ some ([], r)
unfolding split_once
split_once-start p [] r e = ap (λ o. or_split o none) e
split_once-start p (c ∷ u) r e = ap (λ o. or_split o (behind (c ∷ []) (split_once p u))) e

-- The first place of the pattern stays the first when more text comes behind.
pub split_once-behind :
    (p s t a b : Text) → split_once p s ≡ some (a, b) → split_once p (s ++ t) ≡ some (a, b ++ t)
unfolding split_once
split_once-behind p [] t a b e = go (strip_prefix p []) refl e
  where
    go :
        (o : Option Text)
        → strip_prefix p [] ≡ o
        → or_split o none ≡ some (a, b)
        → split_once p t ≡ some (a, b ++ t)
    go none at_start e' = absurd (ground arith)
    go (some r) at_start e' =
        let first : a ≡ [] = ground arith in
        let rest : r ≡ b = ground arith in
        rw (first, ← rest) (split_once-start p t (r ++ t) (strip_prefix-behind p [] t r at_start))
split_once-behind p (c ∷ s) t a b e =
    go (strip_prefix p (c ∷ s)) refl e (λ a' e'. split_once-behind p s t a' b e')
  where
    go :
        (o : Option Text)
        → strip_prefix p (c ∷ s) ≡ o
        → or_split o (behind (c ∷ []) (split_once p s)) ≡ some (a, b)
        → ((a' : Text) → split_once p s ≡ some (a', b) → split_once p (s ++ t) ≡ some (a', b ++ t))
        → split_once p ((c ∷ s) ++ t) ≡ some (a, b ++ t)
    go (some r) at_start e' later =
        let first : a ≡ [] = ground arith in
        let rest : r ≡ b = ground arith in
        rw (first, ← rest)
          (split_once-start p ((c ∷ s) ++ t) (r ++ t) (strip_prefix-behind p (c ∷ s) t r at_start))
    go none at_start e' later =
        let (a', found, front) = behind-cases c (split_once p s) a b e' in
        let long = split_once-length p s a' b found in
        ap (λ o. or_split o (behind (c ∷ []) (split_once p (s ++ t))))
          (strip_prefix-long p (c ∷ s) t (longer c s p long) at_start)
        ∙ ap (behind (c ∷ [])) (later a' found)
        ∙ ap (λ x. some (x, b ++ t)) (sym front)
