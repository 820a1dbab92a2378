-- ===== src/Storage/Snapshot/Sections.antt =====
-- Reading back the sections of a snapshot blob, one position at a time.
use mem_hop.Prelude.{
  ℕ, ◌+◌, ◌-◌, ◌*◌, ◌^◌, ◌<◌, ◌≤◌, ◌≡◌, refl, ap, ◌∙◌, List, [], ◌∷◌, ◌++◌, arith, length, All,
  length-append, take-append, drop-append, append_assoc,
}
use mem_hop.Prelude.Bytes.{put_uint, uint, uint-put_uint, length-put_uint}
use mem_hop.Prelude.Map.{Map, put}
use mem_hop.Errors.{ok}
use mem_hop.Storage.Domains.{Index}
use mem_hop.Storage.Frame.{slice}
use mem_hop.Storage.Snapshot.{
  entries_bytes, sections_bytes, read_entries, parse_snapshot_agent, parse_agents, skip_agents,
}

-- The bytes `mid` behind `pre`.
pub slice-append :
    (raw pre mid post : List ℕ) (p k : ℕ)
    → raw ≡ pre ++ (mid ++ post)
    → length pre ≡ p
    → length mid ≡ k
    → slice raw p (p + k) ≡ mid
slice-append raw pre mid post p k e lp lm =
    let n : p + k - p ≡ k = omega arith in
    rw (e, n, drop-append p pre (mid ++ post) lp, take-append k mid post lm)

pub uint_at :
    (raw pre post : List ℕ) (p w v : ℕ)
    → raw ≡ pre ++ (put_uint w v ++ post)
    → length pre ≡ p
    → v < 256 ^ w
    → uint (slice raw p (p + w)) ≡ v
uint_at raw pre post p w v e lp fits =
    ap uint (slice-append raw pre (put_uint w v) post p w e lp (length-put_uint w v))
    ∙ uint-put_uint w v fits

abbrev pub Fits : ℕ × ℕ → Type 0
Fits e = (e.0 < 256 ^ 8) × (e.1 < 256 ^ 8)

-- The writes of the parsing loop, in their order.
abbrev pub put_all {ℓ} : {V : Type ℓ} → Map V → Map V → Map V
put_all acc [] = acc
put_all acc ((k, v) ∷ m) = put_all (put acc k v) m

pub length-entries_bytes : (m : Map ℕ) → length (entries_bytes m) ≡ length m * 16
unfolding put_uint
length-entries_bytes [] = refl
length-entries_bytes ((id, off) ∷ m) = omega (arith, length-entries_bytes m)

pub read_entries-entries_bytes :
    (m : Map ℕ) (raw pre post : List ℕ) (p : ℕ) (acc : Map ℕ)
    → raw ≡ pre ++ (entries_bytes m ++ post)
    → length pre ≡ p
    → All Fits m
    → read_entries raw p (length m) acc ≡ (put_all acc m, p + length m * 16)
unfolding read_entries
read_entries-entries_bytes [] raw pre post p acc e lp fits = ap (λ k. (acc, k)) (omega arith)
read_entries-entries_bytes ((id, off) ∷ m) raw pre post p acc e lp fits =
    let a = put_uint 8 id in
    let b = put_uint 8 off in
    let first =
      uint_at raw pre (b ++ (entries_bytes m ++ post)) p 8 id (e ∙ simp append_assoc) lp fits.0.0 in
    let second =
      uint_at raw (pre ++ a) (entries_bytes m ++ post) (p + 8) 8 off (e ∙ simp append_assoc)
        (omega (arith, length-append pre (put_uint 8 id), length-put_uint 8 id)) fits.0.1 in
    let rest =
      read_entries-entries_bytes m raw (pre ++ (a ++ b)) post (p + 16) (put acc id off)
        (e ∙ simp append_assoc)
        (omega (
          arith,
          length-append pre (put_uint 8 id ++ put_uint 8 off),
          length-append (put_uint 8 id) (put_uint 8 off),
          length-put_uint 8 id,
          length-put_uint 8 off,
        ))
        fits.1 in
    let at_16 : p + 16 ≡ p + 8 + 8 = omega arith in
    let both = ap (λ k. uint (slice raw (p + 8) k)) at_16 ∙ second in
    (λ i. read_entries raw (p + 16) (length m) (put acc (first i) (both i)))
    ∙ rest
    ∙ ap (λ k. (put_all (put acc id off) m, k)) (omega arith)

-- What a section can hold: the id in 64 bits, the count in 32, each entry in 64 and 64.
abbrev pub SectionFits : ℕ × Map ℕ → Type 0
SectionFits s = (s.0 < 256 ^ 8) × (length s.1 < 256 ^ 4) × All Fits s.1

parse_snapshot_agent-eq-ok :
    (raw : List ℕ) (p a n : ℕ) (r : Map ℕ × ℕ)
    → p + 12 + n * 16 ≤ length raw - 4
    → uint (slice raw p (p + 8)) ≡ a
    → uint (slice raw (p + 8) (p + 12)) ≡ n
    → read_entries raw (p + 12) n [] ≡ r
    → parse_snapshot_agent raw p ≡ ok (a, r.0, r.1)
unfolding parse_snapshot_agent
parse_snapshot_agent-eq-ok raw p a n r room ha hn hr = rw (ha, hn, hr) (ground arith)

pub parse_snapshot_agent-section :
    (a : ℕ) (m : Map ℕ) (raw pre post : List ℕ) (p : ℕ)
    → raw ≡ pre ++ (put_uint 8 a ++ (put_uint 4 (length m) ++ (entries_bytes m ++ post)))
    → length pre ≡ p
    → 4 ≤ length post
    → SectionFits (a, m)
    → parse_snapshot_agent raw p ≡ ok (a, put_all [] m, p + 12 + length m * 16)
parse_snapshot_agent-section a m raw pre post p e lp room fits =
    let n = put_uint 4 (length m) in
    let id = uint_at raw pre (n ++ (entries_bytes m ++ post)) p 8 a e lp fits.0 in
    let count =
      uint_at raw (pre ++ put_uint 8 a) (entries_bytes m ++ post) (p + 8) 4 (length m)
        (e ∙ simp append_assoc)
        (omega (arith, length-append pre (put_uint 8 a), length-put_uint 8 a)) fits.1 in
    let at_12 : p + 12 ≡ p + 8 + 4 = omega arith in
    let count' = ap (λ k. uint (slice raw (p + 8) k)) at_12 ∙ count in
    let head : length (pre ++ (put_uint 8 a ++ n)) ≡ p + 12 = omega (
      arith,
      length-append pre (put_uint 8 a ++ n),
      length-append (put_uint 8 a) n,
      length-put_uint 8 a,
      length-put_uint 4 (length m),
    ) in
    let whole : raw ≡ (pre ++ (put_uint 8 a ++ n)) ++ (entries_bytes m ++ post) =
      e ∙ simp append_assoc in
    let size =
      ap length whole ∙ length-append (pre ++ (put_uint 8 a ++ n)) (entries_bytes m ++ post) in
    let entries =
      read_entries-entries_bytes m raw (pre ++ (put_uint 8 a ++ n)) post (p + 12) [] whole head
        fits.2 in
    parse_snapshot_agent-eq-ok raw p a (length m) (put_all [] m, p + 12 + length m * 16)
      (omega (arith, size, length-append (entries_bytes m) post, length-entries_bytes m)) id count'
      entries

-- Each section as the parser rebuilds it: a map written entry by entry.
abbrev pub rebuilt : Index → Index
rebuilt [] = []
rebuilt ((a, m) ∷ index) = (a, put_all [] m) ∷ rebuilt index

section_next :
    (a : ℕ) (m : Map ℕ) (pre : List ℕ) (p : ℕ)
    → length pre ≡ p
    → length (pre ++ (put_uint 8 a ++ (put_uint 4 (length m) ++ entries_bytes m)))
      ≡ p + 12 + length m * 16
section_next a m pre p lp =
    let n = put_uint 4 (length m) in
    omega (
      arith,
      length-append pre (put_uint 8 a ++ (n ++ entries_bytes m)),
      length-append (put_uint 8 a) (n ++ entries_bytes m),
      length-append n (entries_bytes m),
      length-put_uint 8 a,
      length-put_uint 4 (length m),
      length-entries_bytes m,
    )

pub parse_agents-sections :
    (index : Index) (raw pre post : List ℕ) (p : ℕ) (acc : Index)
    → raw ≡ pre ++ (sections_bytes index ++ post)
    → length pre ≡ p
    → 4 ≤ length post
    → All SectionFits index
    → parse_agents raw (length index) p acc ≡ ok (put_all acc (rebuilt index))
unfolding parse_agents
parse_agents-sections [] raw pre post p acc e lp room fits = refl
parse_agents-sections ((a, m) ∷ index) raw pre post p acc e lp room fits =
    let tail = sections_bytes index ++ post in
    let bytes = put_uint 8 a ++ (put_uint 4 (length m) ++ entries_bytes m) in
    let more : 4 ≤ length tail = omega (arith, length-append (sections_bytes index) post) in
    let here =
      parse_snapshot_agent-section a m raw pre tail p (e ∙ simp append_assoc) lp more fits.0 in
    let rest =
      parse_agents-sections index raw (pre ++ bytes) post (p + 12 + length m * 16)
        (put acc a (put_all [] m)) (e ∙ simp append_assoc) (section_next a m pre p lp) room
        fits.1 in
    rw here rest

section_size :
    (a : ℕ) (m : Map ℕ) (index : Index)
    → length (sections_bytes ((a, m) ∷ index)) ≡ 12 + length m * 16 + length (sections_bytes index)
section_size a m index =
    let n = put_uint 4 (length m) in
    let rest = entries_bytes m ++ sections_bytes index in
    omega (
      arith,
      length-append (put_uint 8 a) (n ++ rest),
      length-append n rest,
      length-append (entries_bytes m) (sections_bytes index),
      length-put_uint 8 a,
      length-put_uint 4 (length m),
      length-entries_bytes m,
    )

pub skip_agents-sections :
    (index : Index) (raw pre post : List ℕ) (p : ℕ)
    → raw ≡ pre ++ (sections_bytes index ++ post)
    → length pre ≡ p
    → 4 ≤ length post
    → All SectionFits index
    → skip_agents raw (length index) p ≡ ok (p + length (sections_bytes index))
unfolding skip_agents
skip_agents-sections [] raw pre post p e lp room fits = ap ok (omega arith)
skip_agents-sections ((a, m) ∷ index) raw pre post p e lp room fits =
    let tail = sections_bytes index ++ post in
    let bytes = put_uint 8 a ++ (put_uint 4 (length m) ++ entries_bytes m) in
    let more : 4 ≤ length tail = omega (arith, length-append (sections_bytes index) post) in
    let here =
      parse_snapshot_agent-section a m raw pre tail p (e ∙ simp append_assoc) lp more fits.0 in
    let rest =
      skip_agents-sections index raw (pre ++ bytes) post (p + 12 + length m * 16)
        (e ∙ simp append_assoc) (section_next a m pre p lp) room fits.1 in
    rw here (rest ∙ ap ok (omega (arith, section_size a m index)))
