-- ===== src/Records/Laws.antt =====
-- What a typed record reads back as, and how the two scans of a domain agree.
use mem_hop.Prelude.{
  length, ◌<◌, ◌^◌, ℕ, ◌≡◌, refl, ap, ◌∙◌, List, [], ◌∷◌, true, false, Option, some, All, ◌⊎◌,
  subst, ==_iff, ◌==◌, ◌&&◌, ==_self, contains, arith, if◌then◌else◌, Bool-cases, inl, inr,
}
use mem_hop.Errors.{Code, Result, ok, err, not_found, Result-cases, ◌>>=◌}
use mem_hop.Storage.Engine.{Engine, index_by_type}
use mem_hop.Storage.Ready.{IsReady}
use mem_hop.Storage.Frame.RoundTrip.{IsStorable}
use mem_hop.Storage.Store.{frame_of, write_record-read_record}
use mem_hop.Storage.Read.{read_record}
use mem_hop.Records.{
  decode, read_json, iter_ids, iter_all, is_not_found, collect_ids, collect_all_strict, write_json,
}

-- What the layers rely on of encoding/json: what was marshalled unmarshals to itself, and its length fits the
-- 32 bits of a frame.
pub record IsLossless {T : Type 0} (marshal : T → Option (List ℕ)) (unmarshal : List ℕ → Option T)
    : Type 0 where
  pub back : (v : T) (bytes : List ℕ) → marshal v ≡ some bytes → unmarshal bytes ≡ some v
  pub sized : (v : T) (bytes : List ℕ) → marshal v ≡ some bytes → length bytes < 256 ^ 4

module _ {T : Type 0} (marshal : T → Option (List ℕ)) (unmarshal : List ℕ → Option T) where
  decoded :
      (t k : ℕ) (v : T) (bytes : List ℕ)
      → unmarshal bytes ≡ some v
      → decode unmarshal k (t, bytes) ≡ (if t == k then ok v else err not_found)
  decoded t k v bytes u = elim (Bool-cases (t == k)) [
    | inl same ↦ rw (same, u) refl
    | inr other ↦ rw other refl
  ]

  -- What is stored of a value, and how every record reads then.
  pub write_json-read_record :
      (e : Engine) (a t i : ℕ) (v : T) (bytes : List ℕ)
      → e.plan ≡ []
      → IsReady e
      → IsStorable (frame_of a t i bytes)
      → marshal v ≡ some bytes
      → (e' : Engine) × (write_json marshal a t i v e ≡ (ok tt, e'))
        × IsReady e'
        × (e'.plan ≡ [])
        × ((b j : ℕ)
            → read_record e' b j ≡ (if a == b && i == j then ok (t, bytes) else read_record e b j))
  unfolding write_json
  write_json-read_record e a t i v bytes calm r s m =
      let (off, e', eq, r', calm', read) = write_record-read_record e a t i bytes calm r s in
      (e', rw (m, eq) refl, r', calm', read)

  -- When no system call fails: a value that marshals to bytes from which it unmarshals is written into a
  -- ready engine and reads back under its type; every other record reads as before.
  -- The type of the record is above 0 and its fields fit their widths.
  pub write_json-read_json :
      (e : Engine) (a t i : ℕ) (v : T) (bytes : List ℕ)
      → e.plan ≡ []
      → IsReady e
      → IsStorable (frame_of a t i bytes)
      → marshal v ≡ some bytes
      → unmarshal bytes ≡ some v
      → (e' : Engine) × (write_json marshal a t i v e ≡ (ok tt, e'))
        × IsReady e'
        × (e'.plan ≡ [])
        × ((b j u : ℕ)
            → read_json unmarshal e' b j u ≡ (
                if a == b && i == j
                then (if t == u then ok v else err not_found)
                else read_json unmarshal e b j u))
  unfolding read_json
  write_json-read_json e a t i v bytes calm r s m u =
      let (e', eq, r', calm', read) = write_json-read_record e a t i v bytes calm r s m in
      (
        e',
        eq,
        r',
        calm',
        λ b j k. elim (Bool-cases (a == b && i == j)) [
          | inl same ↦
              rw same
                (ap (λ x. x >>= decode unmarshal k) (rw same at (read b j)) ∙ decoded t k v bytes u)
          | inr other ↦ rw other (ap (λ x. x >>= decode unmarshal k) (rw other at (read b j)))
        ],
      )

module _ {T : Type 0} (unmarshal : List ℕ → Option T) (e : Engine) (a t : ℕ) where
  -- The strict scan is the lenient one, where every id reads or is missing.
  abbrev pub IsWhole : List ℕ → Type 0
  IsWhole ids =
      (collect_ids unmarshal e a t ids ≡ ok (iter_ids unmarshal e a t ids))
      × All (λ id. (c : Code) → read_json unmarshal e a id t ≡ err c → is_not_found c ≡ true) ids

  -- One of the ids will not read, and the strict scan answers with its error.
  abbrev pub IsDamaged : List ℕ → Type 0
  IsDamaged ids =
      (id : ℕ) × (c : Code) × (contains ids id ≡ true)
      × (read_json unmarshal e a id t ≡ err c)
      × (is_not_found c ≡ false)
      × (collect_ids unmarshal e a t ids ≡ err c)

  absent : (c : Code) → is_not_found c ≡ true → c ≡ not_found
  absent not_found h = refl
  absent c h = absurd (cc h)

  same_code :
      {r : Result T} (d c : Code)
      → r ≡ err d
      → r ≡ err c
      → is_not_found d ≡ true
      → is_not_found c ≡ true
  same_code d c h k gone = cc (h, k, gone)

  module _ (id : ℕ) (ids : List ℕ) where
    good_id :
        (v : T)
        → read_json unmarshal e a id t ≡ ok v
        → IsWhole ids ⊎ IsDamaged ids
        → IsWhole (id ∷ ids) ⊎ IsDamaged (id ∷ ids)
    unfolding collect_ids iter_ids
    good_id v r (inl (eq, clean)) =
        inl (rw (r, collect_ids, iter_ids) (rw eq refl), ((λ c h. absurd (cc (r, h))), clean))
    good_id v r (inr (x, c, mem, read, hard, eq)) =
        inr (x, c, ground (arith, mem), read, hard, rw (r, collect_ids) (rw eq refl))

    missing_id :
        (d : Code)
        → read_json unmarshal e a id t ≡ err d
        → is_not_found d ≡ true
        → IsWhole ids ⊎ IsDamaged ids
        → IsWhole (id ∷ ids) ⊎ IsDamaged (id ∷ ids)
    unfolding collect_ids iter_ids
    missing_id d r gone (inl (eq, clean)) =
        inl (rw (r, collect_ids, iter_ids) (rw gone eq), ((λ c h. same_code d c r h gone), clean))
    missing_id d r gone (inr (x, c, mem, read, hard, eq)) =
        inr (x, c, ground (arith, mem), read, hard, rw (r, collect_ids) (rw gone eq))

    bad_id :
        (d : Code)
        → read_json unmarshal e a id t ≡ err d
        → is_not_found d ≡ false
        → IsDamaged (id ∷ ids)
    unfolding collect_ids
    bad_id d r hard =
        (id, d, ground (arith, ==_self id), r, hard, rw (r, collect_ids) (rw hard refl))

  collect_ids_cases : (ids : List ℕ) → IsWhole ids ⊎ IsDamaged ids
  unfolding collect_ids iter_ids
  collect_ids_cases [] = inl (refl, tt)
  collect_ids_cases (id ∷ ids) = elim (Result-cases (read_json unmarshal e a id t)) [
    | inl (v, r) ↦ good_id id ids v r (collect_ids_cases ids)
    | inr (c, r) ↦ elim (Bool-cases (is_not_found c)) [
      | inl gone ↦ missing_id id ids c r gone (collect_ids_cases ids)
      | inr hard ↦ inr (bad_id id ids c r hard)
    ]
  ]

  All-contains : (P : ℕ → Type 0) (ids : List ℕ) (j : ℕ) → All P ids → contains ids j ≡ true → P j
  All-contains P [] j h c = absurd (cc c)
  All-contains P (i ∷ ids) j h c = elim (Bool-cases (i == j)) [
    | inl same ↦ subst P ((==_iff i j).0 same) h.0
    | inr other ↦ All-contains P ids j h.1 (rw other at c)
  ]

  -- The strict scan of a domain either answers what the lenient scan does, and then every id of the bucket reads
  -- or is missing; or it answers the error of one of them that will not read, an error other than its
  -- absence.
  pub collect_all_strict_lem :
      ((collect_all_strict unmarshal e a t ≡ ok (iter_all unmarshal e a t))
        × ((id : ℕ) (c : Code)
            → contains (index_by_type e a t) id ≡ true
            → read_json unmarshal e a id t ≡ err c
            → c ≡ not_found))
      ⊎ ((id : ℕ) × (c : Code) × (contains (index_by_type e a t) id ≡ true)
          × (read_json unmarshal e a id t ≡ err c)
          × (is_not_found c ≡ false)
          × (collect_all_strict unmarshal e a t ≡ err c))
  unfolding collect_all_strict iter_all
  collect_all_strict_lem = elim (collect_ids_cases (index_by_type e a t)) [
    | inl whole ↦ inl (
      whole.0,
      λ id c there h. absent c (
          All-contains
            (λ i. (d : Code) → read_json unmarshal e a i t ≡ err d → is_not_found d ≡ true)
            (index_by_type e a t) id whole.1 there c h),
    )
    | inr damaged ↦ inr damaged
  ]
