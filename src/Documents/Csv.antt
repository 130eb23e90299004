-- ===== src/Documents/Csv.antt =====
-- render_csv.cpp: fields, cells and rows. The cells of a pair are left out: they hold measurements
-- whose spelling is the JSON library's.
pub mod Reading
pub mod Rows
use Prim.Native.Char.{Char, code}
use fastdds_transport_viz.Prelude.{
  String, Bool, true, false, ◌&&◌, ◌||◌, not, List, [], ◌∷◌, if◌then◌else◌, ◌==◌,
}
use fastdds_transport_viz.Prelude.Text.{text_append, str_is_empty}

abbrev pub quote : String
quote = "\""

abbrev pub line_break : String
line_break = "\n"

-- A character of `",\"\r\n"`.
abbrev pub is_special : Char → Bool
is_special c = code c == 44 || code c == 34 || code c == 13 || code c == 10

-- `s.find_first_of(",\"\r\n") != std::string::npos`
abbrev pub has_special : String → Bool
has_special String.[] = false
has_special (String.◌∷◌ c s) = is_special c || has_special s

-- The characters of a quoted field, each double quote twice.
unfoldable pub doubled : String → String
doubled String.[] = ""
doubled (String.◌∷◌ c s) =
    let rest = String.◌∷◌ c (doubled s) in if code c == 34 then text_append quote rest else rest

unfoldable pub field : String → String
field s = if not (has_special s) then s else text_append quote (text_append (doubled s) quote)

-- `out += (out.empty() ? "" : ";") + s`
unfoldable pub joined_to : String → List String → String
joined_to out [] = out
joined_to out (s ∷ items) =
    joined_to (text_append out (text_append (if str_is_empty out then "" else ";") s)) items

unfoldable pub joined : List String → String
joined items = joined_to "" items

abbrev pub columns : List String
columns =
    "observed_at" ∷ "domain" ∷ "topic" ∷ "type" ∷ "writer_node" ∷ "writer_host" ∷ "writer_guid"
    ∷ "reader_node" ∷ "reader_host" ∷ "reader_guid" ∷ "transport" ∷ "confidence" ∷ "reasons"
    ∷ "warnings" ∷ "measured_transports" ∷ "packets" ∷ "bytes" ∷ "delivered_per_s"
    ∷ "delivered_per_s_lower_bound" ∷ "latency_mean_s" ∷ "latency_min_s" ∷ "latency_max_s"
    ∷ "latency_last_s" ∷ "lost_packets" ∷ "resent_datas" ∷ []

-- The loop of `row`; the flag says whether a cell was written.
pub row_cells : String → Bool → List String → String
row_cells out later [] = out
row_cells out later (cell ∷ cells) =
    row_cells (text_append out (text_append (if later then "," else "") (field cell))) true cells

pub row : String → List String → String
row out cells = text_append (row_cells out false cells) line_break
