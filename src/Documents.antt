-- ===== src/Documents.antt =====
-- The documents that the program writes and reads: render_csv.cpp and parse_json.cpp.
pub mod Enumerations
pub mod Csv
