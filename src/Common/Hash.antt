-- ===== src/Common/Hash.antt =====
-- internal/common/hash.go: ids as 16 hex digits. An id text is the list of its bytes.
pub mod Text
use mem_hop.Prelude.{
  ℕ, zero, suc, ◌+◌, ◌*◌, ◌-◌, ◌/◌, ◌%◌, List, [], ◌∷◌, Option, none, some, leb, ltb, ◌&&◌, ◌==◌,
  not, length, if◌then◌else◌,
}
use mem_hop.Errors.{Result, ok, err, invalid_query, ◌>>=◌}

-- digits[n], of "0123456789abcdef"
abbrev pub hex_digit : ℕ → ℕ
hex_digit n = if ltb n 10 then 48 + n else 87 + n

-- The loop of FormatHash: from the last byte of the buffer to the first.
unfoldable pub format_loop : ℕ → ℕ → List ℕ → List ℕ
format_loop zero h buf = buf
format_loop (suc i) h buf = format_loop i (h / 16) (hex_digit (h % 16) ∷ buf)

unfoldable pub format_hash : ℕ → List ℕ
format_hash h = format_loop 16 h []

-- strconv.ParseUint of base 16, where 16 bytes are read and nothing can overflow: a digit in either
-- case, and no sign, prefix or underscore.
unfoldable pub hex_value : ℕ → Option ℕ
hex_value c =
    if leb 48 c && leb c 57
    then some (c - 48)
    else if leb 97 c && leb c 102
    then some (c - 87)
    else if leb 65 c && leb c 70
    then some (c - 55)
    else none

abbrev pub next_digit : ℕ → Option ℕ → Option ℕ
next_digit h none = none
next_digit h (some d) = some (h * 16 + d)

unfoldable pub parse_digits : Option ℕ → List ℕ → Option ℕ
parse_digits none cs = none
parse_digits (some h) [] = some h
parse_digits (some h) (c ∷ cs) = parse_digits (next_digit h (hex_value c)) cs

abbrev pub or_invalid : Option ℕ → Result ℕ
or_invalid none = err invalid_query
or_invalid (some h) = ok h

unfoldable pub parse_id : List ℕ → Result ℕ
parse_id id =
    if not (length id == 16) then err invalid_query else or_invalid (parse_digits (some 0) id)

unfoldable pub parse_all : List (List ℕ) → Result (List ℕ)
parse_all [] = ok []
parse_all (id ∷ ids) = parse_id id >>= λ h. parse_all ids >>= λ hs. ok (h ∷ hs)
