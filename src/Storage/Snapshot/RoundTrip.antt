-- ===== src/Storage/Snapshot/RoundTrip.antt =====
-- BuildSnapshot and ParseSnapshot: the blob names the same offset for every record, and its length
-- is found again in front of whatever follows it.
use mem_hop.Prelude.{
  ℕ, ◌+◌, ◌-◌, ◌^◌, ◌<◌, ◌≤◌, ◌≡◌, refl, ap, ◌∙◌, List, [], ◌∷◌, ◌++◌, arith, length, take, drop,
  All, length-append, take-append, drop-append, append_assoc, Option, none, some, ==_self,
}
use mem_hop.Prelude.Bytes.{put_uint, uint, uint-put_uint, length-put_uint}
use mem_hop.Prelude.Map.{inner, Map, put, get, get-put, Distinct}
use mem_hop.Errors.{ok}
use mem_hop.Storage.Crc.{update, update-lt}
use mem_hop.Storage.Domains.{Index, offset_of}
use mem_hop.Storage.Frame.{slice, byte_at}
use mem_hop.Storage.Snapshot.{
  live_domains, snapshot_magic, snapshot_version, sections_bytes, snapshot_body, build_snapshot,
  check_snapshot_envelope, parse_snapshot, parse_agents, skip_agents, snapshot_blob_length,
}
use mem_hop.Storage.Snapshot.Sections.{
  put_all, rebuilt, SectionFits, parse_agents-sections, skip_agents-sections,
}

-- What BuildSnapshot can serialize: distinct keys, and every number within its width.
pub record IsSerializable (index : Index) : Type 0 where
  pub domains : Distinct index
  pub entries : All (λ s. Distinct s.1) index
  pub fits : All SectionFits index
  pub count : length (live_domains index) < 256 ^ 4

abbrev first_of_two {ℓ} : {V : Type ℓ} → Option V → Option V → Option V
first_of_two none o = o
first_of_two (some v) o = some v

get-put_all {ℓ} :
    {V : Type ℓ} (m acc : Map V) (k : ℕ)
    → Distinct m
    → get (put_all acc m) k ≡ first_of_two (get m k) (get acc k)
unfolding get
get-put_all [] acc k d = refl
get-put_all ((j, v) ∷ m) acc k d =
    ground (arith, get-put_all m (put acc j v) k d.1, get-put acc j v k)

first_of_two-none {ℓ} : {V : Type ℓ} (o : Option V) → first_of_two o none ≡ o
first_of_two-none none = refl
first_of_two-none (some v) = refl

get-put_all_nil {ℓ} : {V : Type ℓ} (m : Map V) (k : ℕ) → Distinct m → get (put_all [] m) k ≡ get m k
unfolding get
get-put_all_nil m k d = get-put_all m [] k d ∙ first_of_two-none (get m k)

live_domains_fit : (index : Index) → All SectionFits index → All SectionFits (live_domains index)
live_domains_fit [] f = f
live_domains_fit ((a, []) ∷ index) f = live_domains_fit index f.1
live_domains_fit ((a, e ∷ m) ∷ index) f = (f.0, live_domains_fit index f.1)

get-live_domains-none :
    (index : Index) (a : ℕ) → get index a ≡ none → get (live_domains index) a ≡ none
unfolding get
get-live_domains-none [] a h = refl
get-live_domains-none ((b, []) ∷ index) a h = ground (arith, get-live_domains-none index a)
get-live_domains-none ((b, e ∷ m) ∷ index) a h = ground (arith, get-live_domains-none index a)

live_domains-Distinct : (index : Index) → Distinct index → Distinct (live_domains index)
live_domains-Distinct [] d = d
live_domains-Distinct ((a, []) ∷ index) d = live_domains-Distinct index d.1
live_domains-Distinct ((a, e ∷ m) ∷ index) d =
    (get-live_domains-none index a d.0, live_domains-Distinct index d.1)

offset_of-live_domains :
    (index : Index) (a id : ℕ)
    → Distinct index
    → offset_of (live_domains index) a id ≡ offset_of index a id
unfolding get
offset_of-live_domains [] a id d = refl
offset_of-live_domains ((b, []) ∷ index) a id d =
    ground (arith, offset_of-live_domains index a id d.1, get-live_domains-none index a, d.0)
offset_of-live_domains ((b, e ∷ m) ∷ index) a id d =
    ground (arith, offset_of-live_domains index a id d.1)

get-rebuilt-none : (index : Index) (a : ℕ) → get index a ≡ none → get (rebuilt index) a ≡ none
unfolding get
get-rebuilt-none [] a h = refl
get-rebuilt-none ((b, m) ∷ index) a h = ground (arith, get-rebuilt-none index a)

rebuilt-Distinct : (index : Index) → Distinct index → Distinct (rebuilt index)
rebuilt-Distinct [] d = d
rebuilt-Distinct ((a, m) ∷ index) d = (get-rebuilt-none index a d.0, rebuilt-Distinct index d.1)

live_domains-entries :
    (index : Index) → All (λ s. Distinct s.1) index → All (λ s. Distinct s.1) (live_domains index)
live_domains-entries [] f = f
live_domains-entries ((a, []) ∷ index) f = live_domains-entries index f.1
live_domains-entries ((a, e ∷ m) ∷ index) f = (f.0, live_domains-entries index f.1)

offset_of-rebuilt :
    (index : Index) (a id : ℕ)
    → All (λ s. Distinct s.1) index
    → offset_of (rebuilt index) a id ≡ offset_of index a id
unfolding get
offset_of-rebuilt [] a id f = refl
offset_of-rebuilt ((b, m) ∷ index) a id f =
    ground (arith, offset_of-rebuilt index a id f.1, get-put_all m [] id f.0)

check_envelope-eq-ok :
    (raw : List ℕ) (n c : ℕ)
    → 13 ≤ length raw
    → length raw - 4 ≡ n
    → update 0 (take n raw) ≡ c
    → uint (drop n raw) ≡ c
    → uint (slice raw 0 4) ≡ snapshot_magic
    → byte_at raw 4 ≡ snapshot_version
    → check_snapshot_envelope raw ≡ ok tt
unfolding check_snapshot_envelope
check_envelope-eq-ok raw n c long hn hu hc hm hv = rw (hn, hu, hc, hm, hv, ==_self) (ground arith)

parse_snapshot-eq-ok :
    (raw : List ℕ) (n : ℕ) (index : Index)
    → check_snapshot_envelope raw ≡ ok tt
    → uint (slice raw 5 9) ≡ n
    → parse_agents raw n 9 [] ≡ ok index
    → parse_snapshot raw ≡ ok index
unfolding parse_snapshot
parse_snapshot-eq-ok raw n index he hn hp = rw (he, hn, hp)

blob_length-eq-ok :
    (raw : List ℕ) (n p : ℕ)
    → 13 ≤ length raw
    → p + 4 ≤ length raw
    → uint (slice raw 0 4) ≡ snapshot_magic
    → byte_at raw 4 ≡ snapshot_version
    → uint (slice raw 5 9) ≡ n
    → skip_agents raw n 9 ≡ ok p
    → snapshot_blob_length raw ≡ ok (p + 4)
unfolding snapshot_blob_length
blob_length-eq-ok raw n p long room hm hv hn hs = rw (hm, hv, hn, hs) (ground arith)

-- The first nine bytes, whatever follows.
abbrev head : ℕ → List ℕ
head n = put_uint 4 snapshot_magic ++ (snapshot_version ∷ put_uint 4 n)

length-head : (n : ℕ) → length (head n) ≡ 9
unfolding put_uint
length-head n = refl

-- What the readers find in them.
head_fields :
    (n : ℕ) (raw rest : List ℕ)
    → raw ≡ head n ++ rest
    → n < 256 ^ 4
    → (uint (slice raw 0 4) ≡ snapshot_magic)
      × (byte_at raw 4 ≡ snapshot_version)
      × (uint (slice raw 5 9) ≡ n)
unfolding put_uint
head_fields n raw rest e h =
    rw e (uint-put_uint 4 snapshot_magic (omega arith), refl, uint-put_uint 4 n h)

module _ (index : Index) (s : IsSerializable index) where
  abbrev live : Index
  live = live_domains index

  abbrev body : List ℕ
  body = snapshot_body index

  abbrev crc_bytes : List ℕ
  crc_bytes = put_uint 4 (update 0 body)

  count-lt : length live < 256 ^ 4
  count-lt = s.count

  blob-eq : build_snapshot index ≡ head (length live) ++ (sections_bytes live ++ crc_bytes)
  unfolding build_snapshot put_uint
  blob-eq = append_assoc (head (length live)) (sections_bytes live) crc_bytes

  length-body : length body ≡ 9 + length (sections_bytes live)
  unfolding put_uint
  length-body = omega arith

  pub length-blob : length (build_snapshot index) ≡ 13 + length (sections_bytes live)
  unfolding build_snapshot
  length-blob =
      omega (arith, length-append body crc_bytes, length-body, length-put_uint 4 (update 0 body))

  envelope : check_snapshot_envelope (build_snapshot index) ≡ ok tt
  unfolding build_snapshot
  envelope =
      let (m, v, _) = head_fields (length live) (body ++ crc_bytes) _ blob-eq count-lt in
      let n : length (body ++ crc_bytes) - 4 ≡ length body =
        omega (arith, length-append body crc_bytes, length-put_uint 4 (update 0 body)) in
      check_envelope-eq-ok (body ++ crc_bytes) (length body) (update 0 body)
        (omega (arith, length-blob)) n
        (ap (update 0) (take-append (length body) body crc_bytes refl))
        (ap uint (drop-append (length body) body crc_bytes refl)
          ∙ uint-put_uint 4 (update 0 body) (update-lt 0 body))
        m v

  fits : All SectionFits live
  fits = live_domains_fit index s.fits

  -- The index that ParseSnapshot builds.
  pub parse_snapshot_lem : parse_snapshot (build_snapshot index) ≡ ok (put_all [] (rebuilt live))
  parse_snapshot_lem =
      let (_, _, n) = head_fields (length live) (build_snapshot index) _ blob-eq count-lt in
      let agents =
        parse_agents-sections live (build_snapshot index) (head (length live)) crc_bytes 9 []
          blob-eq (length-head (length live)) (omega (arith, length-put_uint 4 (update 0 body)))
          fits in
      parse_snapshot-eq-ok (build_snapshot index) (length live) (put_all [] (rebuilt live)) envelope
        n agents

  pub offset_of-put_all :
      (a id : ℕ) → offset_of (put_all [] (rebuilt live)) a id ≡ offset_of index a id
  offset_of-put_all a id =
      ap (λ o. get (inner o) id)
        (get-put_all_nil (rebuilt live) a
          (rebuilt-Distinct live (live_domains-Distinct index s.domains)))
      ∙ offset_of-rebuilt live a id (live_domains-entries index s.entries)
      ∙ offset_of-live_domains index a id s.domains

  -- Where the keys of an index are distinct and its numbers fit their widths, ParseSnapshot reads back
  -- what BuildSnapshot wrote: every record at its offset, and no other.
  pub parse_snapshot-build_snapshot :
      (back : Index) × (parse_snapshot (build_snapshot index) ≡ ok back)
      × ((a id : ℕ) → offset_of back a id ≡ offset_of index a id)
  parse_snapshot-build_snapshot = (put_all [] (rebuilt live), parse_snapshot_lem, offset_of-put_all)

  -- The length of a blob is found from its start alone.
  pub snapshot_blob_length-build_snapshot :
      (rest : List ℕ)
      → snapshot_blob_length (build_snapshot index ++ rest) ≡ ok (length (build_snapshot index))
  snapshot_blob_length-build_snapshot rest =
      let raw = build_snapshot index ++ rest in
      let e : raw ≡ head (length live) ++ (sections_bytes live ++ (crc_bytes ++ rest)) =
        rw blob-eq (simp append_assoc) in
      let (m, v, n) = head_fields (length live) raw _ e count-lt in
      let size = length-append (build_snapshot index) rest in
      let skipped =
        skip_agents-sections live raw (head (length live)) (crc_bytes ++ rest) 9 e
          (length-head (length live))
          (omega (arith, length-append crc_bytes rest, length-put_uint 4 (update 0 body))) fits in
      blob_length-eq-ok raw (length live) (9 + length (sections_bytes live))
        (omega (arith, size, length-blob)) (omega (arith, size, length-blob)) m v n skipped
      ∙ ap ok (omega (arith, length-blob))
