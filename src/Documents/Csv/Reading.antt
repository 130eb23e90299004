-- ===== src/Documents/Csv/Reading.antt =====
-- A reader of RFC 4180, and what it reads of the rows that are written.
use Prim.Native.Char.{Char, code}
use fastdds_transport_viz.Prelude.{
  String, Bool, true, false, ◌||◌, List, [], ◌∷◌, ◌++◌, if◌then◌else◌, ◌==◌, ◌≡◌, refl, sym, ap,
  ◌∙◌, inl, inr, arith, Bool-cases,
}
use fastdds_transport_viz.Prelude.Text.{text_append, append_assoc, append_nil}
use fastdds_transport_viz.Documents.Csv.{is_special, has_special, quote, doubled, field}

-- Where the reader stands: before a field, in one without quotes, in a quoted one, or after a double
-- quote of a quoted one.
pub data Mode : Type 0 where
  before bare quoted closing : Mode

-- The field and the cells of the row that is being read, and the rows before it.
pub record Reader : Type 0 where
  pub mode : Mode
  pub cell : String
  pub cells : List String
  pub rows : List (List String)

-- At the start of a row.
abbrev pub reader_at : List (List String) → Reader
reader_at rows = record { mode = Mode.before; cell = ""; cells = []; rows = rows }

abbrev keep_char : Mode → Char → Reader → Reader
keep_char mode c r = record r { mode = mode; cell = text_append r.cell (String.◌∷◌ c "") }

abbrev end_cell : Reader → Reader
end_cell r = record r { mode = Mode.before; cell = ""; cells = r.cells ++ r.cell ∷ [] }

abbrev end_row : Reader → Reader
end_row r = reader_at (r.rows ++ (r.cells ++ r.cell ∷ []) ∷ [])

-- A character outside of quotes. A line ends with a line feed, which a carriage return may precede.
abbrev outside : Char → Reader → Reader
outside c r =
    if code c == 44
    then end_cell r
    else if code c == 10
    then end_row r
    else if code c == 13
    then record r { mode = Mode.bare }
    else keep_char Mode.bare c r

abbrev by_mode : Mode → Char → Reader → Reader
by_mode Mode.before c r = if code c == 34 then record r { mode = Mode.quoted } else outside c r
by_mode Mode.bare c r = outside c r
by_mode Mode.quoted c r =
    if code c == 34 then record r { mode = Mode.closing } else keep_char Mode.quoted c r
by_mode Mode.closing c r = if code c == 34 then keep_char Mode.quoted c r else outside c r

abbrev pub read_char : Char → Reader → Reader
read_char c r = by_mode r.mode c r

abbrev pub read : String → Reader → Reader
read String.[] r = r
read (String.◌∷◌ c s) r = read s (read_char c r)

pub read-append : (s t : String) (r : Reader) → read (text_append s t) r ≡ read t (read s r)
read-append String.[] t r = refl
read-append (String.◌∷◌ c s) t r = read-append s t (read_char c r)

not_comma : (c : Char) (b : Bool) → (is_special c || b) ≡ false → (code c == 44) ≡ false
not_comma c b h = ground arith

not_break : (c : Char) (b : Bool) → (is_special c || b) ≡ false → (code c == 10) ≡ false
not_break c b h = ground arith

not_return : (c : Char) (b : Bool) → (is_special c || b) ≡ false → (code c == 13) ≡ false
not_return c b h = ground arith

not_quote : (c : Char) (b : Bool) → (is_special c || b) ≡ false → (code c == 34) ≡ false
not_quote c b h = ground arith

rest_plain : (c : Char) (b : Bool) → (is_special c || b) ≡ false → b ≡ false
rest_plain c b h = ground arith

-- A comma or a line break.
abbrev is_separator : Char → Bool
is_separator c = code c == 44 || code c == 10

separator_not_quote : (c : Char) → is_separator c ≡ true → (code c == 34) ≡ false
separator_not_quote c h = ground arith

module _ (cells : List String) (rows : List (List String)) where
  abbrev pub in_mode : Mode → String → Reader
  in_mode mode cell = record { mode = mode; cell = cell; cells = cells; rows = rows }

  snoc :
      (mode : Mode) (acc : String) (c : Char) (s : String)
      → in_mode mode (text_append (text_append acc (String.◌∷◌ c "")) s)
        ≡ in_mode mode (text_append acc (String.◌∷◌ c s))
  snoc mode acc c s = ap (in_mode mode) (append_assoc acc (String.◌∷◌ c "") s)

  read-doubled :
      (s acc : String)
      → read (doubled s) (in_mode Mode.quoted acc) ≡ in_mode Mode.quoted (text_append acc s)
  unfolding doubled
  read-doubled String.[] acc = ap (in_mode Mode.quoted) (sym (append_nil acc))
  read-doubled (String.◌∷◌ c s) acc = elim (Bool-cases (code c == 34)) [
    | inl e ↦
        rw e (rw e (read-doubled s (text_append acc (String.◌∷◌ c "")) ∙ snoc Mode.quoted acc c s))
    | inr e ↦ rw e (
        rw (read, e)
          (read-doubled s (text_append acc (String.◌∷◌ c "")) ∙ snoc Mode.quoted acc c s))
  ]

  read-bare :
      (s acc : String)
      → has_special s ≡ false
      → read s (in_mode Mode.bare acc) ≡ in_mode Mode.bare (text_append acc s)
  read-bare String.[] acc h = ap (in_mode Mode.bare) (sym (append_nil acc))
  read-bare (String.◌∷◌ c s) acc h =
      rw
        (
          not_comma c (has_special s) h,
          not_break c (has_special s) h,
          not_return c (has_special s) h,
        )
        (read-bare s (text_append acc (String.◌∷◌ c "")) (rest_plain c (has_special s) h)
          ∙ snoc Mode.bare acc c s)

  first_char :
      (c : Char) (s : String)
      → (is_special c || has_special s) ≡ false
      → read_char c (in_mode Mode.before "") ≡ in_mode Mode.bare (String.◌∷◌ c "")
  first_char c s e =
      rw
        (
          not_quote c (has_special s) e,
          not_comma c (has_special s) e,
          not_break c (has_special s) e,
          not_return c (has_special s) e,
        )
        refl

  after_quote :
      (separator : Char) (s : String)
      → is_separator separator ≡ true
      → read_char separator (in_mode Mode.closing s) ≡ outside separator (in_mode Mode.before s)
  after_quote separator s h = rw (separator_not_quote separator h) refl

  read-plain :
      (separator : Char) (s : String)
      → has_special s ≡ false
      → is_separator separator ≡ true
      → read_char separator (read s (in_mode Mode.before ""))
        ≡ outside separator (in_mode Mode.before s)
  read-plain separator String.[] e h = rw (separator_not_quote separator h) refl
  read-plain separator (String.◌∷◌ c s) e h =
      ap (λ r. read_char separator (read s r)) (first_char c s e)
      ∙ ap (read_char separator) (read-bare s (String.◌∷◌ c "") (rest_plain c (has_special s) e))

  -- A written field is read as itself, whichever separator follows.
  pub read-field :
      (separator : Char) (s : String)
      → is_separator separator ≡ true
      → read_char separator (read (field s) (in_mode Mode.before ""))
        ≡ outside separator (in_mode Mode.before s)
  unfolding field
  read-field separator s h = elim (Bool-cases (has_special s)) [
    | inl e ↦ rw e (
        ap (read_char separator) (
          read-append (doubled s) quote (in_mode Mode.quoted "")
          ∙ ap (read quote) (read-doubled s ""))
        ∙ after_quote separator s h)
    | inr e ↦ rw e (read-plain separator s e h)
  ]
