-- ===== src/Text/Words.antt =====
-- Words with single spaces between them, and `split_whitespace`.
use nea.Base.{ℕ, ◌≡◌, ◌≢◌, refl, ap, ◌∙◌, arith, Bool, true, false, not, ◌&&◌, List, [], ◌∷◌, ◌++◌}
use nea.Text.Calls.{Text, avoids, is_whitespace, split_whitespace}
use nea.Text.Lines.{IsLine, nonempty, avoids-append}

abbrev no_space : Text → Bool
no_space [] = true
no_space (c ∷ s) = not (is_whitespace c) && no_space s

-- A word has a character and no white space.
pub record IsWord (w : Text) : Type 0 where
  pub no_spaces : no_space w ≡ true
  pub some_text : nonempty w ≡ true

abbrev pub AllWords : List Text → Type 0
AllWords [] = Unit
AllWords (w ∷ ws) = IsWord w × AllWords ws

-- A word and more words, with a space between each two.
abbrev pub spaced : Text → List Text → Text
spaced w [] = w
spaced w (v ∷ vs) = w ++ (32 ∷ spaced v vs)

space : is_whitespace 32 ≡ true
unfolding is_whitespace
space = refl

no_end : (c : ℕ) → is_whitespace c ≡ false → (c ≢ 13) × (c ≢ 10) × (c ≢ 32)
unfolding is_whitespace
no_end c h = (
  λ e. absurd (ground (arith, h, e)),
  λ e. absurd (ground (arith, h, e)),
  λ e. absurd (ground (arith, h, e)),
)

word-step :
    (c : ℕ) (s t : Text)
    → no_space (c ∷ s) ≡ true
    → split_whitespace ((c ∷ s) ++ (32 ∷ t)) ≡ (c ∷ s) ∷ split_whitespace t
unfolding split_whitespace
word-step c [] t h = ground (arith, space)
word-step c (d ∷ s) t h = ground (arith, word-step d s t)

word-last : (c : ℕ) (s : Text) → no_space (c ∷ s) ≡ true → split_whitespace (c ∷ s) ≡ (c ∷ s) ∷ []
unfolding split_whitespace
word-last c [] h = ground arith
word-last c (d ∷ s) h = ground (arith, word-last d s)

pub split_whitespace-spaced :
    (w : Text) (ws : List Text) → IsWord w → AllWords ws → split_whitespace (spaced w ws) ≡ w ∷ ws
split_whitespace-spaced [] ws h hs = absurd (ground (arith, h.some_text))
split_whitespace-spaced (c ∷ w) [] h hs = word-last c w h.no_spaces
split_whitespace-spaced (c ∷ w) (v ∷ vs) h (k, ks) =
    word-step c w (spaced v vs) h.no_spaces
    ∙ ap (λ r. (c ∷ w) ∷ r) (split_whitespace-spaced v vs k ks)

word-avoids : (w : Text) → no_space w ≡ true → (avoids 13 w ≡ true) × (avoids 10 w ≡ true)
word-avoids [] h = (refl, refl)
word-avoids (c ∷ w) h =
    (ground (arith, no_end c, word-avoids w), ground (arith, no_end c, word-avoids w))

pub word-no_space : (w : Text) → no_space w ≡ true → avoids 32 w ≡ true
word-no_space [] h = refl
word-no_space (c ∷ w) h = ground (arith, no_end c, word-no_space w)

spaced-avoids :
    (w : Text) (ws : List Text)
    → IsWord w
    → AllWords ws
    → (avoids 13 (spaced w ws) ≡ true) × (avoids 10 (spaced w ws) ≡ true)
spaced-avoids w [] h hs = word-avoids w h.no_spaces
spaced-avoids w (v ∷ vs) h (k, ks) =
    let (no_cr, no_lf) = word-avoids w h.no_spaces in
    let (no_cr', no_lf') = spaced-avoids v vs k ks in
    (
      avoids-append 13 w (32 ∷ spaced v vs) no_cr no_cr',
      avoids-append 10 w (32 ∷ spaced v vs) no_lf no_lf',
    )

nonempty-append : (s t : Text) → nonempty s ≡ true → nonempty (s ++ t) ≡ true
nonempty-append [] t h = absurd (ground arith)
nonempty-append (c ∷ s) t h = refl

spaced-nonempty : (w : Text) (ws : List Text) → IsWord w → nonempty (spaced w ws) ≡ true
spaced-nonempty w [] h = h.some_text
spaced-nonempty w (v ∷ vs) h = nonempty-append w (32 ∷ spaced v vs) h.some_text

-- A line of words is a line.
pub spaced-IsLine : (w : Text) (ws : List Text) → IsWord w → AllWords ws → IsLine (spaced w ws)
spaced-IsLine w ws h hs = record {
  no_cr = (spaced-avoids w ws h hs).0;
  no_lf = (spaced-avoids w ws h hs).1;
  some_text = spaced-nonempty w ws h;
}
