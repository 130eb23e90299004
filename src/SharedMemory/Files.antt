-- ===== src/SharedMemory/Files.antt =====
-- shm_info.cpp: the names of the files that Fast DDS keeps in shared memory.
use Prim.Native.Char.{code}
use fastdds_transport_viz.Prelude.{
  ℕ, zero, suc, ◌+◌, ◌-◌, ◌*◌, ◌/◌, ◌%◌, ◌^◌, min, String, Bool, true, ◌&&◌, ◌||◌, not, List, [],
  ◌∷◌, Option, none, some, if◌then◌else◌, ltb, leb, ◌==◌,
}
use fastdds_transport_viz.Prelude.Text.{
  strip_prefix, strip_suffix, is_some, text_append, str_is_empty,
}

-- Fast DDS 2 names its files `fastrtps_`, Fast DDS 3 `fastdds_`.
abbrev pub segment_prefixes : List String
segment_prefixes = "fastrtps_" ∷ "fastdds_" ∷ []

abbrev pub port_prefixes : List String
port_prefixes = "fastrtps_port" ∷ "fastdds_port" ∷ []

abbrev pub sem_prefixes : List String
sem_prefixes = "sem.fastrtps_" ∷ "sem.fastdds_" ∷ []

abbrev pub datasharing_prefix : String
datasharing_prefix = "fast_datasharing_"

abbrev pub lock_suffix : String
lock_suffix = "_el"

abbrev pub starts_with : String → String → Bool
starts_with s prefix = is_some (strip_prefix prefix s)

-- `prefix_of` with the use that is made of it: what follows the first prefix that fits.
unfoldable pub after_prefix : List String → String → Option String
after_prefix [] s = none
after_prefix (p ∷ ps) s = elim (strip_prefix p s) [
  | none ↦ after_prefix ps s
  | some rest ↦ some rest
]

abbrev pub ends_with : String → String → Bool
ends_with s suffix = is_some (strip_suffix suffix s)

abbrev all_chars : (ℕ → Bool) → String → Bool
all_chars p String.[] = true
all_chars p (String.◌∷◌ c s) = p (code c) && all_chars p s

abbrev is_digit : ℕ → Bool
is_digit c = leb 48 c && leb c 57

unfoldable pub is_hex : String → Bool
is_hex s = not (str_is_empty s) && all_chars (λ c. is_digit c || (leb 97 c && leb c 102)) s

unfoldable pub is_digits : String → Bool
is_digits s = not (str_is_empty s) && all_chars is_digit s

abbrev text_at : ℕ → List String → String
text_at n [] = ""
text_at zero (t ∷ ts) = t
text_at (suc n) (t ∷ ts) = text_at n ts

abbrev digit_text : ℕ → String
digit_text n = text_at n (
    "0" ∷ "1" ∷ "2" ∷ "3" ∷ "4" ∷ "5" ∷ "6" ∷ "7" ∷ "8" ∷ "9" ∷ "a" ∷ "b" ∷ "c" ∷ "d" ∷ "e" ∷ "f"
    ∷ [])

-- The digits of a number before a text; the first argument bounds their number.
abbrev decimal_before : ℕ → ℕ → String → String
decimal_before zero n rest = rest
decimal_before (suc more) n rest =
    let text = text_append (digit_text (n % 10)) rest in
    let longer = decimal_before more (n / 10) text in if ltb n 10 then text else longer

-- `std::to_string` of a number below 2^32, which has at most ten digits.
unfoldable pub decimal : ℕ → String
decimal n = decimal_before 10 n ""

-- `%x` and `%02x` of a byte.
abbrev hex : ℕ → String
hex n = if ltb n 16 then digit_text n else text_append (digit_text (n / 16)) (digit_text (n % 16))

abbrev hex_padded : ℕ → String
hex_padded n = text_append (digit_text (n / 16)) (digit_text (n % 16))

-- The bytes of a GUID, as the loops number them: the prefix with two digits each, the entity id
-- without padding.
abbrev segment_bytes : ℕ → List ℕ → String
segment_bytes i [] = ""
segment_bytes i (g ∷ gs) =
    text_append
      (if ltb i 12
        then text_append (hex_padded g) (if ltb i 11 then "." else "_")
        else text_append (hex g) (if ltb i 15 then "." else ""))
      (segment_bytes (i + 1) gs)

unfoldable pub datasharing_segment_name : List ℕ → String
datasharing_segment_name guid = text_append datasharing_prefix (segment_bytes 0 guid)

-- `strtoul` of digits, which stops at 2^64 - 1, as a number of 32 bits.
abbrev digits_value : ℕ → String → ℕ
digits_value n String.[] = n
digits_value n (String.◌∷◌ c s) = digits_value (min (n * 10 + (code c - 48)) (2 ^ 64 - 1)) s

abbrev port_value : String → ℕ
port_value s = digits_value 0 s % 2 ^ 32

-- `name.substr(name.rfind('/') + 1)`: without a slash, all of it.
abbrev after_slash : String → String → String
after_slash found String.[] = found
after_slash found (String.◌∷◌ c s) = if code c == 47 then after_slash s s else after_slash found s

-- One entry of /proc/self/fd: the target of its link, if it has one.
abbrev held_port : Option String → List ℕ → List ℕ
held_port none ports = ports
held_port (some target) ports = elim (after_prefix port_prefixes (after_slash target target)) [
  | none ↦ ports
  | some rest ↦ elim (strip_suffix lock_suffix rest) [
    | none ↦ ports
    | some port ↦ if is_digits port then port_value port ∷ ports else ports
  ]
]

unfoldable pub held_ports : List (Option String) → List ℕ
held_ports [] = []
held_ports (t ∷ ts) = held_port t (held_ports ts)

-- The listing of the descriptors with their links is an argument: `none` if there is none.
unfoldable pub held_port_locks : Option (List (Option String)) → Option (List ℕ)
held_port_locks none = none
held_port_locks (some links) = some (held_ports links)
