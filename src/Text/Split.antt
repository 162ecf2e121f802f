-- ===== src/Text/Split.antt =====
-- `split_once` at a pattern that the first text does not have.
use nea.Base.{
  ℕ, ◌≡◌, refl, sym, ap, ◌∙◌, arith, true, Option, none, some, [], ◌∷◌, ◌++◌, append_assoc,
  append-nil, ◌⊎◌, inl, inr,
}
use nea.Text.Calls.{Text, avoids, strip_prefix, behind, or_split, split_once}

behind-nil : (o : Option (Text × Text)) → behind [] o ≡ o
behind-nil none = refl
behind-nil (some (a, b)) = refl

pub behind-behind :
    (a b : Text) (o : Option (Text × Text)) → behind a (behind b o) ≡ behind (a ++ b) o
behind-behind a b none = refl
behind-behind a b (some (x, y)) = ap (λ z. some (z, y)) (sym (append_assoc a b x))

strip_prefix-append : (p s : Text) → strip_prefix p (p ++ s) ≡ some s
unfolding strip_prefix
strip_prefix-append [] s = refl
strip_prefix-append (c ∷ p) s = ground (arith, strip_prefix-append p s)

-- A text without the pattern's first character is stepped over.
pub split_once-avoids :
    (x : ℕ) (p s t : Text)
    → avoids x s ≡ true
    → split_once (x ∷ p) (s ++ t) ≡ behind s (split_once (x ∷ p) t)
unfolding split_once strip_prefix
split_once-avoids x p [] t h = sym (behind-nil (split_once (x ∷ p) t))
split_once-avoids x p (c ∷ s) t h =
    ground (arith, split_once-avoids x p s t, behind-behind (c ∷ []) s (split_once (x ∷ p) t))

split_once-here : (x : ℕ) (p t : Text) → split_once (x ∷ p) ((x ∷ p) ++ t) ≡ some ([], t)
unfolding split_once
split_once-here x p t = rw (strip_prefix-append (x ∷ p) t) refl

-- A pattern whose first character the text before it does not have.
pub split_once-at :
    (x : ℕ) (p s t : Text)
    → avoids x s ≡ true
    → split_once (x ∷ p) (s ++ ((x ∷ p) ++ t)) ≡ some (s, t)
split_once-at x p s t h =
    split_once-avoids x p s ((x ∷ p) ++ t) h
    ∙ ap (behind s) (split_once-here x p t)
    ∙ ap (λ z. some (z, t)) (append-nil s)

strip_prefix_sound : (p s t : Text) → strip_prefix p s ≡ some t → s ≡ p ++ t
unfolding strip_prefix
strip_prefix_sound [] s t e = ground arith
strip_prefix_sound (c ∷ p) [] t e = absurd (ground arith)
strip_prefix_sound (c ∷ p) (d ∷ s) t e = ground (arith, strip_prefix_sound p s t)

or_split-cases :
    (o : Option Text) (later : Option (Text × Text)) (a b : Text)
    → or_split o later ≡ some (a, b)
    → ((o ≡ some b) × (a ≡ [])) ⊎ (later ≡ some (a, b))
or_split-cases none later a b e = inr e
or_split-cases (some rest) later a b e = inl (ground arith, ground arith)

pub behind-cases :
    (c : ℕ) (o : Option (Text × Text)) (a b : Text)
    → behind (c ∷ []) o ≡ some (a, b)
    → (a' : Text) × (o ≡ some (a', b)) × (a ≡ c ∷ a')
behind-cases c none a b e = absurd (ground arith)
behind-cases c (some (a', b')) a b e = (a', ground arith, ground arith)

-- What is split off stands in the text, with the pattern between.
pub split_once_sound : (p s a b : Text) → split_once p s ≡ some (a, b) → s ≡ a ++ (p ++ b)
unfolding split_once
split_once_sound p [] a b e = elim (or_split-cases (strip_prefix p []) none a b e) [
  | inl (here, front) ↦ rw front (strip_prefix_sound p [] b here)
  | inr later ↦ absurd (ground arith)
]
split_once_sound p (c ∷ s) a b e =
    elim (or_split-cases (strip_prefix p (c ∷ s)) (behind (c ∷ []) (split_once p s)) a b e) [
      | inl (here, front) ↦ rw front (strip_prefix_sound p (c ∷ s) b here)
      | inr later ↦
          let (a', e', front) = behind-cases c (split_once p s) a b later in
          rw front (ap (λ r. c ∷ r) (split_once_sound p s a' b e'))
    ]
