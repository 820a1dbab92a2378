-- ===== src/Storage/Frame/Local.antt =====
-- A frame is read from its own bytes alone: bytes appended behind it, a cut behind it and a header
-- written in front of the record area leave it as it was.
use mem_hop.Prelude.{
  ℕ, zero, suc, ◌+◌, ◌-◌, ◌<◌, ◌≤◌, ◌≡◌, refl, sym, ap, ◌∙◌, List, [], ◌∷◌, ◌++◌, arith, ltb,
  length, take, drop, length-append, length-take, length-drop, drop-append_le, take-append_le,
  drop-drop, min,
}
use mem_hop.Prelude.Bytes.{uint}
use mem_hop.Errors.{ok}
use mem_hop.Storage.Frame.{Frame, slice, byte_at, decode_frame, record_data}
use mem_hop.Storage.Frame.RoundTrip.{record_data-fits}

take-take : (m n : ℕ) (xs : List ℕ) → m ≤ n → take m (take n xs) ≡ take m xs
take-take zero n xs h = refl
take-take (suc m) zero xs h = absurd (omega arith)
take-take (suc m) (suc n) [] h = refl
take-take (suc m) (suc n) (x ∷ xs) h = ap (λ t. x ∷ t) (take-take m n xs (omega arith))

take_nil : (n : ℕ) → take n (let e : List ℕ = [] in e) ≡ []
take_nil zero = refl
take_nil (suc n) = refl

drop-take : (m n : ℕ) (xs : List ℕ) → drop m (take n xs) ≡ take (n - m) (drop m xs)
drop-take zero n xs = ap (λ k. take k xs) (omega arith)
drop-take (suc m) zero xs = ap (λ k. take k (drop (suc m) xs)) {x = 0} (omega arith)
drop-take (suc m) (suc n) [] = sym (take_nil (suc n - suc m))
drop-take (suc m) (suc n) (x ∷ xs) = drop-take m n xs ∙ ap (λ k. take k (drop m xs)) (omega arith)

slice-take : (xs : List ℕ) (k a b : ℕ) → b ≤ k → slice (take k xs) a b ≡ slice xs a b
slice-take xs k a b h =
    ap (take (b - a)) (drop-take a k xs) ∙ take-take (b - a) (k - a) (drop a xs) (omega arith)

byte_at-take : (xs : List ℕ) (k i : ℕ) → i < k → byte_at (take k xs) i ≡ byte_at xs i
byte_at-take xs zero i h = absurd (omega arith)
byte_at-take [] (suc k) i h = refl
byte_at-take (x ∷ xs) (suc k) zero h = refl
byte_at-take (x ∷ xs) (suc k) (suc i) h = byte_at-take xs k i (omega arith)

-- The length that a clean frame declares is the length of its payload.
decode_frame_size :
    (rest : List ℕ) (fr : Frame)
    → decode_frame rest ≡ ok fr
    → uint (slice rest 2 6) ≡ length fr.payload
unfolding decode_frame
decode_frame_size rest fr h =
    let n : ℕ = uint (slice rest 2 6) in
    ground (arith, length-take (26 + n - 26) (drop 26 rest), length-drop 26 rest)

-- Behind the length that a frame declares nothing is read.
decode_frame-take :
    (rest : List ℕ) (k : ℕ)
    → 26 + uint (slice rest 2 6) ≤ k
    → decode_frame (take k rest) ≡ decode_frame rest
unfolding decode_frame
decode_frame-take rest k fits =
    let n : ℕ = uint (slice rest 2 6) in
    let bound : ltb (min k (length rest) - 26) n ≡ ltb (length rest - 26) n = ground arith in
    rw (
      byte_at-take rest k 0 (omega arith),
      byte_at-take rest k 1 (omega arith),
      slice-take rest k 2 6 (omega arith),
      slice-take rest k 6 14 (omega arith),
      slice-take rest k 14 22 (omega arith),
      slice-take rest k 22 26 (omega arith),
      slice-take rest k 26 (26 + n) (omega arith),
      take-take 22 k rest (omega arith),
      length-take k rest,
      bound,
    )

-- Two mappings that agree on a frame's bytes give the same frame.
pub record_data-agree :
    (mm mm' : List ℕ) (off : ℕ) (fr : Frame)
    → record_data mm off ≡ ok fr
    → off + 26 + length fr.payload ≤ length mm'
    → take (26 + length fr.payload) (drop off mm') ≡ take (26 + length fr.payload) (drop off mm)
    → record_data mm' off ≡ ok fr
unfolding record_data
record_data-agree mm mm' off fr h fits same =
    let k = 26 + length fr.payload in
    let there : decode_frame (drop off mm) ≡ ok fr = ground (arith, h) in
    let size = decode_frame_size (drop off mm) fr there in
    let size' : uint (slice (drop off mm') 2 6) ≡ length fr.payload =
      ap uint (sym (slice-take (drop off mm') k 2 6 (omega arith)))
      ∙ ap (λ l. uint (slice l 2 6)) same
      ∙ ap uint (slice-take (drop off mm) k 2 6 (omega arith))
      ∙ size in
    let here : decode_frame (drop off mm') ≡ ok fr =
      sym (decode_frame-take (drop off mm') k (omega (arith, size')))
      ∙ ap decode_frame same
      ∙ decode_frame-take (drop off mm) k (omega (arith, size))
      ∙ there in
    ground (arith, here)

-- Bytes behind the frame do not matter.
pub record_data-append :
    (mm more : List ℕ) (off : ℕ) (fr : Frame)
    → record_data mm off ≡ ok fr
    → record_data (mm ++ more) off ≡ ok fr
record_data-append mm more off fr h =
    let fits = record_data-fits mm off fr h in
    let k = 26 + length fr.payload in
    record_data-agree mm (mm ++ more) off fr h (omega (arith, fits, length-append mm more)) (
      ap (take k) (drop-append_le off mm more (omega (arith, fits)))
      ∙ take-append_le k (drop off mm) more (omega (arith, fits, length-drop off mm)))

-- Nor does a cut behind it.
pub record_data-take :
    (mm : List ℕ) (n off : ℕ) (fr : Frame)
    → record_data mm off ≡ ok fr
    → off + 26 + length fr.payload ≤ n
    → record_data (take n mm) off ≡ ok fr
record_data-take mm n off fr h le =
    let fits = record_data-fits mm off fr h in
    let k = 26 + length fr.payload in
    record_data-agree mm (take n mm) off fr h (omega (arith, fits, length-take n mm))
      (ap (take k) (drop-take off n mm) ∙ take-take k (n - off) (drop off mm) (omega arith))

-- Nor do bytes written in front of it.
pub record_data-drop :
    (mm mm' : List ℕ) (start off : ℕ) (fr : Frame)
    → record_data mm off ≡ ok fr
    → start ≤ off
    → drop start mm' ≡ drop start mm
    → length mm' ≡ length mm
    → record_data mm' off ≡ ok fr
record_data-drop mm mm' start off fr h le same size =
    let k = 26 + length fr.payload in
    let to = off - start in
    let at : start + to ≡ off = omega arith in
    let again = λ (l : List ℕ). ap (λ n. drop n l) at in
    record_data-agree mm mm' off fr h (omega (arith, record_data-fits mm off fr h, size)) (
      ap (take k) (
        sym (again mm')
        ∙ sym (drop-drop to start mm')
        ∙ ap (drop to) same
        ∙ drop-drop to start mm
        ∙ again mm))
