-- ===== src/Text/Fields.antt =====
-- benchmarks: header fields: a key and a value, with a colon and a space between them.
use nea.Base.{◌≡◌, refl, true, some, List, [], ◌∷◌, ◌++◌}
use nea.Text.Calls.{Text, avoids, split_once}
use nea.Text.Split.{split_once-at}
use nea.Text.Lines.{IsLine, nonempty, avoids-append, AllLines}

abbrev pub colon : Text
colon = 58 ∷ 32 ∷ []

pub record Header : Type 0 where
  pub key : Text
  pub value : Text

abbrev pub field : Header → Text
field h = h.key ++ (colon ++ h.value)

abbrev pub fields : List Header → List Text
fields [] = []
fields (h ∷ hs) = field h ∷ fields hs

-- A key has no colon and no end of a line, a value no end of a line.
pub record IsField (h : Header) : Type 0 where
  pub no_colon : avoids 58 h.key ≡ true
  pub key_no_cr : avoids 13 h.key ≡ true
  pub key_no_lf : avoids 10 h.key ≡ true
  pub value_no_cr : avoids 13 h.value ≡ true
  pub value_no_lf : avoids 10 h.value ≡ true

abbrev pub AllFields : List Header → Type 0
AllFields [] = Unit
AllFields (h ∷ hs) = IsField h × AllFields hs

pub split_once-field : (h : Header) → IsField h → split_once colon (field h) ≡ some (h.key, h.value)
split_once-field h f = split_once-at 58 (32 ∷ []) h.key h.value f.no_colon

append-nonempty : (s t : Text) → nonempty t ≡ true → nonempty (s ++ t) ≡ true
append-nonempty [] t h = h
append-nonempty (c ∷ s) t h = refl

pub field-IsLine : (h : Header) → IsField h → IsLine (field h)
field-IsLine h f = record {
  no_cr = avoids-append 13 h.key (colon ++ h.value) f.key_no_cr f.value_no_cr;
  no_lf = avoids-append 10 h.key (colon ++ h.value) f.key_no_lf f.value_no_lf;
  some_text = append-nonempty h.key (colon ++ h.value) refl;
}

pub fields-AllLines : (hs : List Header) → AllFields hs → AllLines (fields hs)
fields-AllLines [] f = tt
fields-AllLines (h ∷ hs) (f, fs) = (field-IsLine h f, fields-AllLines hs fs)
