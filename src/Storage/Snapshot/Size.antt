-- ===== src/Storage/Snapshot/Size.antt =====
-- Which indexes a snapshot can hold, and how long it gets.
use mem_hop.Prelude.{
  ℕ, ◌+◌, ◌*◌, ◌<◌, ◌≤◌, ◌^◌, ◌≡◌, refl, ap, [], ◌∷◌, some, All, length, length-append, arith, ◌==◌,
  Bool-cases, inl, inr, ==_self, ==_iff,
}
use mem_hop.Prelude.Bytes.{put_uint}
use mem_hop.Prelude.Map.{Map, get, put, Distinct, Distinct-put}
use mem_hop.Storage.Domains.{Index, offset_of}
use mem_hop.Errors.{ok}
use mem_hop.Storage.Domains.Tidy.{KeysFit, IsTidy, All-put, length-delete, total_records-delete}
use mem_hop.Storage.Engine.{total_records}
use mem_hop.Storage.Snapshot.{
  live_domains, sections_bytes, entries_bytes, build_snapshot, parse_snapshot,
}
use mem_hop.Storage.Snapshot.Sections.{Fits, SectionFits, length-entries_bytes, put_all, rebuilt}
use mem_hop.Storage.Snapshot.RoundTrip.{
  IsSerializable, length-blob, parse_snapshot_lem, offset_of-put_all,
}

-- What holds of every lookup holds of every entry.
All-lookups {ℓ} :
    {V : Type ℓ} (P : V → Type 0) (m : Map V)
    → Distinct m
    → ((k : ℕ) (v : V) → get m k ≡ some v → P v)
    → All (λ e. P e.1) m
unfolding get
All-lookups P [] d h = tt
All-lookups P ((k, v) ∷ m) d h = (
  h k v (rw (==_self k) refl),
  All-lookups P m d.1 (λ j w e. elim (Bool-cases (k == j)) [
    | inl same ↦ let at : k ≡ j = (==_iff k j).0 same in absurd (cc (e, ap (get m) at, d.0))
    | inr other ↦ h j w (rw other e)
  ]),
)

abbrev Below : Map ℕ → Type 0
Below m = (i off : ℕ) → get m i ≡ some off → off < 256 ^ 8

module _ (index : Index) (t : IsTidy index)
    (below : (a i off : ℕ) → offset_of index a i ≡ some off → off < 256 ^ 8) where
  sections-Below : All (λ s. Below s.1) index
  sections-Below = All-lookups Below index t.domains (λ a m e i off h. below a i off (rw e h))

-- A domain whose keys and offsets fit.
entries_fit : (m : Map ℕ) → All (λ e. e.0 < 256 ^ 8) m → All (λ e. e.1 < 256 ^ 8) m → All Fits m
entries_fit [] k b = tt
entries_fit (e ∷ m) k b = ((k.0, b.0), entries_fit m k.1 b.1)

sections_fit :
    (index : Index)
    → total_records index < 256 ^ 4
    → All KeysFit index
    → All (λ s. Below s.1) index
    → All SectionFits index
unfolding total_records
sections_fit [] n k b = tt
sections_fit ((a, m) ∷ index) n k b = (
  (k.0.0, omega arith, entries_fit m k.0.2 (All-lookups (λ off. off < 256 ^ 8) m k.0.1 b.0)),
  sections_fit index (omega arith) k.1 b.1,
)

entries_distinct : (index : Index) → All KeysFit index → All (λ s. Distinct s.1) index
entries_distinct [] k = tt
entries_distinct (s ∷ index) k = (k.0.1, entries_distinct index k.1)

live_domains_few : (index : Index) → length (live_domains index) ≤ total_records index
unfolding total_records
live_domains_few [] = omega arith
live_domains_few ((a, []) ∷ index) = omega (arith, live_domains_few index)
live_domains_few ((a, e ∷ m) ∷ index) = omega (arith, live_domains_few index)

-- A tidy index whose offsets fit, with fewer than 2^32 records, can be serialized.
pub IsTidy-IsSerializable :
    (index : Index)
    → IsTidy index
    → ((a i off : ℕ) → offset_of index a i ≡ some off → off < 256 ^ 8)
    → total_records index < 256 ^ 4
    → IsSerializable index
IsTidy-IsSerializable index t below n = record {
  domains = t.domains;
  entries = entries_distinct index t.keys;
  fits = sections_fit index n t.keys (sections-Below index t below);
  count = omega (arith, n, live_domains_few index);
}

length-sections_bytes :
    (index : Index) → length (sections_bytes (live_domains index)) ≤ 28 * total_records index
unfolding total_records put_uint
length-sections_bytes [] = omega arith
length-sections_bytes ((a, []) ∷ index) = omega (arith, length-sections_bytes index)
length-sections_bytes ((a, e ∷ m) ∷ index) = omega (
  arith,
  length-sections_bytes index,
  length-append (entries_bytes (e ∷ m)) (sections_bytes (live_domains index)),
  length-entries_bytes (e ∷ m),
)

-- A snapshot takes at most 28 bytes for each record, and 13 more.
pub length-build_snapshot :
    (index : Index)
    → IsSerializable index
    → length (build_snapshot index) ≤ 13 + 28 * total_records index
length-build_snapshot index s = omega (arith, length-blob index s, length-sections_bytes index)

put_all-Distinct {ℓ} : {V : Type ℓ} (m acc : Map V) → Distinct acc → Distinct (put_all acc m)
put_all-Distinct [] acc d = d
put_all-Distinct ((k, v) ∷ m) acc d = put_all-Distinct m (put acc k v) (Distinct-put acc k v d)

put_all-All {ℓ} :
    {V : Type ℓ} (P : ℕ × V → Type 0) (m acc : Map V) → All P acc → All P m → All P (put_all acc m)
put_all-All P [] acc h k = h
put_all-All P ((j, v) ∷ m) acc h k = put_all-All P m (put acc j v) (All-put P acc j v k.0 h) k.1

length-put_all {ℓ} : {V : Type ℓ} (m acc : Map V) → length (put_all acc m) ≤ length acc + length m
unfolding put
length-put_all [] acc = omega arith
length-put_all ((k, v) ∷ m) acc = omega (arith, length-put_all m (put acc k v), length-delete acc k)

total_records-put_all :
    (x acc : Index) → total_records (put_all acc x) ≤ total_records acc + total_records x
unfolding put total_records
total_records-put_all [] acc = omega arith
total_records-put_all ((a, m) ∷ x) acc =
    omega (arith, total_records-put_all x (put acc a m), total_records-delete acc a)

rebuilt_KeysFit : (index : Index) → All KeysFit index → All KeysFit (rebuilt (live_domains index))
rebuilt_KeysFit [] k = tt
rebuilt_KeysFit ((a, []) ∷ index) k = rebuilt_KeysFit index k.1
rebuilt_KeysFit ((a, e ∷ m) ∷ index) k = (
  (k.0.0, put_all-Distinct (e ∷ m) [] tt, put_all-All (λ x. x.0 < 256 ^ 8) (e ∷ m) [] tt k.0.2),
  rebuilt_KeysFit index k.1,
)

rebuilt_few : (index : Index) → total_records (rebuilt (live_domains index)) ≤ total_records index
unfolding total_records
rebuilt_few [] = omega arith
rebuilt_few ((a, []) ∷ index) = omega (arith, rebuilt_few index)
rebuilt_few ((a, e ∷ m) ∷ index) = omega (arith, rebuilt_few index, length-put_all (e ∷ m) [])

-- What is parsed back of a tidy index is tidy, with the same lookups and no more records.
pub parse_snapshot-IsTidy :
    (index : Index)
    → IsSerializable index
    → IsTidy index
    → (back : Index) × (parse_snapshot (build_snapshot index) ≡ ok back)
      × ((a id : ℕ) → offset_of back a id ≡ offset_of index a id)
      × IsTidy back
      × (total_records back ≤ total_records index)
unfolding total_records
parse_snapshot-IsTidy index s t =
    let fresh = rebuilt (live_domains index) in
    (
      put_all [] fresh,
      parse_snapshot_lem index s,
      offset_of-put_all index s,
      record {
        domains = put_all-Distinct fresh [] tt;
        keys = put_all-All KeysFit fresh [] tt (rebuilt_KeysFit index t.keys);
      },
      omega (arith, total_records-put_all fresh [], rebuilt_few index),
    )
