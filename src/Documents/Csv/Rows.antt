-- ===== src/Documents/Csv/Rows.antt =====
-- The rows that are written one after the other are read back.
use fastdds_transport_viz.Prelude.{
  String, true, false, List, [], ◌∷◌, ◌++◌, is_empty, All, ◌≡◌, refl, sym, ap, ◌∙◌, arith,
  append_assoc, append-nil,
}
use fastdds_transport_viz.Prelude.Text.{text_append}
use fastdds_transport_viz.Documents.Csv.{field, line_break, row_cells, row}
use fastdds_transport_viz.Documents.Csv.Reading.{
  Mode, Reader, reader_at, in_mode, read, read-append, read-field,
}

module _ (rows : List (List String)) (start : Reader) where
  read-row_cells :
      (out : String) (done : List String) (cell : String) (cells : List String)
      → read out start ≡ read (field cell) (in_mode done rows Mode.before "")
      → read (text_append (row_cells out true cells) line_break) start
        ≡ reader_at (rows ++ (done ++ cell ∷ cells) ∷ [])
  unfolding row_cells
  read-row_cells out done cell [] h =
      read-append out line_break start
      ∙ ap (read line_break) h
      ∙ read-field done rows "\n" cell refl
  read-row_cells out done cell (next ∷ cells) h =
      read-row_cells (text_append out (text_append "," (field next))) (done ++ cell ∷ []) next cells
        (read-append out (text_append "," (field next)) start
          ∙ ap (λ r. read (field next) (read "," r)) h
          ∙ ap (read (field next)) (read-field done rows "," cell refl))
      ∙ ap (λ line. reader_at (rows ++ line ∷ [])) (append_assoc done (cell ∷ []) (next ∷ cells))

  read-row :
      (out : String) (cells : List String)
      → is_empty cells ≡ false
      → read out start ≡ reader_at rows
      → read (row out cells) start ≡ reader_at (rows ++ cells ∷ [])
  unfolding row row_cells
  read-row out [] filled h = absurd (ground arith)
  read-row out (cell ∷ cells) filled h =
      read-row_cells (text_append out (field cell)) [] cell cells
        (read-append out (field cell) start ∙ ap (read (field cell)) h)

-- The document of a table: one call of `row` after the other.
abbrev pub write_rows : String → List (List String) → String
write_rows out [] = out
write_rows out (cells ∷ table) = write_rows (row out cells) table

read-write_rows_from :
    (out : String) (rows table : List (List String))
    → All (λ cells. is_empty cells ≡ false) table
    → read out (reader_at []) ≡ reader_at rows
    → read (write_rows out table) (reader_at []) ≡ reader_at (rows ++ table)
read-write_rows_from out rows [] filled h = h ∙ ap reader_at (sym (append-nil rows))
read-write_rows_from out rows (cells ∷ table) (f, filled) h =
    read-write_rows_from (row out cells) (rows ++ cells ∷ []) table filled
      (read-row rows (reader_at []) out cells f h)
    ∙ ap reader_at (append_assoc rows (cells ∷ []) table)

-- A reader of RFC 4180 reads the rows that are written one after the other, with any texts in their
-- cells, as exactly these rows, and ends at the start of a row; each row has a cell.
pub read-write_rows :
    (table : List (List String))
    → All (λ cells. is_empty cells ≡ false) table
    → read (write_rows "" table) (reader_at []) ≡ reader_at table
read-write_rows table filled = read-write_rows_from "" [] table filled refl
