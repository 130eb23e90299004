-- ===== src/Examples/Written.antt =====
-- Witnesses and tests for the documents: a table with a comma, quotes and a line break in its cells.
use fastdds_transport_viz.Prelude.{String, List, [], ◌∷◌, ◌≡◌, refl}
use fastdds_transport_viz.Documents.Csv.{field, joined, joined_to, doubled}
use fastdds_transport_viz.Documents.Csv.Reading.{read, reader_at}
use fastdds_transport_viz.Documents.Csv.Rows.{write_rows, read-write_rows}

abbrev some_table : List (List String)
some_table =
    ("topic" ∷ "reasons" ∷ []) ∷ ("/chatter" ∷ "a, \"b\"" ∷ []) ∷ ("two\nlines" ∷ "" ∷ []) ∷ []

read-write_rows_example : read (write_rows "" some_table) (reader_at []) ≡ reader_at some_table
read-write_rows_example = read-write_rows some_table (refl, (refl, (refl, tt)))

quoted_field : field "a, \"b\"" ≡ "\"a, \"\"b\"\"\""
unfolding field doubled
quoted_field = refl

two_codes : joined ("same-host" ∷ "shm" ∷ []) ≡ "same-host;shm"
unfolding joined joined_to
two_codes = refl
