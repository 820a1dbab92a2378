-- ===== src/Common/Hash/Text.antt =====
-- An id and its text determine each other.
use mem_hop.Prelude.{
  ℕ, zero, suc, ◌+◌, ◌*◌, ◌/◌, ◌%◌, ◌^◌, ◌<◌, ◌≡◌, refl, ap, ◌∙◌, List, [], ◌∷◌, some, arith,
  length, All, map,
}
use native.Mathlib.Nat.{pow-suc, mul_assoc}
use mem_hop.Errors.{ok}
use mem_hop.Common.Hash.{
  or_invalid, parse_all, next_digit, hex_digit, format_loop, format_hash, hex_value, parse_digits,
  parse_id,
}

hex_value-hex_digit : (d : ℕ) → d < 16 → hex_value (hex_digit d) ≡ some d
unfolding hex_value
hex_value-hex_digit d h = ground (arith, h)

length-format_loop : (i h : ℕ) (buf : List ℕ) → length (format_loop i h buf) ≡ i + length buf
unfolding format_loop
length-format_loop zero h buf = omega arith
length-format_loop (suc i) h buf =
    omega (arith, length-format_loop i (h / 16) (hex_digit (h % 16) ∷ buf))

digits_back :
    (i h v : ℕ) (buf : List ℕ)
    → h < 16 ^ i
    → parse_digits (some v) (format_loop i h buf) ≡ parse_digits (some (v * 16 ^ i + h)) buf
unfolding format_loop parse_digits
digits_back zero h v buf l = ap (λ n. parse_digits (some n) buf) (omega (arith, l))
digits_back (suc i) h v buf l =
    let small : h / 16 < 16 ^ i = omega (arith, l, pow-suc 16 i) in
    let more : (v * 16 ^ i + h / 16) * 16 + h % 16 ≡ v * 16 ^ suc i + h =
      rw (pow-suc 16 i) (omega (arith, mul_assoc v (16 ^ i) 16)) in
    digits_back i (h / 16) v (hex_digit (h % 16) ∷ buf) small
    ∙ ap (λ o. parse_digits (next_digit (v * 16 ^ i + h / 16) o) buf)
        (hex_value-hex_digit (h % 16) (omega arith))
    ∙ ap (λ n. parse_digits (some n) buf) more

-- An id of 64 bits is what its text parses to.
pub parse_id-format_hash : (h : ℕ) → h < 2 ^ 64 → parse_id (format_hash h) ≡ ok h
unfolding parse_id format_hash parse_digits
parse_id-format_hash h l =
    rw (length-format_loop 16 h [], digits_back 16 h 0 [] (omega (arith, l)))
      (ap (λ n. or_invalid (some n)) {x = 0 + h} (omega arith))

-- The texts of ids of 64 bits parse, in order, to those ids.
pub parse_all-format_hash :
    (hs : List ℕ) → All (λ h. h < 2 ^ 64) hs → parse_all (map format_hash hs) ≡ ok hs
unfolding parse_all
parse_all-format_hash [] l = refl
parse_all-format_hash (h ∷ hs) l =
    rw (parse_id-format_hash h l.0, parse_all-format_hash hs l.1) refl
