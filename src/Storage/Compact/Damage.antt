-- ===== src/Storage/Compact/Damage.antt =====
-- Compact on a source with a record that will not read, however the system calls end.
use mem_hop.Prelude.{ℕ, ◌≡◌, refl, ap, List, [], ◌∷◌, ◌++◌, ◌==◌, All, length, Bool-cases, inl, inr}
use mem_hop.Prelude.Map.{Map}
use mem_hop.Errors.{Result, ok, err, Result-cases}
use mem_hop.Storage.Domains.{Index}
use mem_hop.Storage.Frame.{Frame, record_data}
use mem_hop.Storage.Engine.{Engine, Act, follow, ◌>>◌, mmap}
use mem_hop.Storage.Tail.{checkpoint}
use mem_hop.Storage.Write.{RecordEntry}
use mem_hop.Storage.Lifecycle.{create, both, keep_first, shutdown_handles}
use mem_hop.Storage.Compact.{copied, flush, copy_domain, copy_domains, compact}

follow_ok :
    {A B : Type 0} (r : Result A) (f : A → Act B) (e e' : Engine) (b : B)
    → follow r f e ≡ (ok b, e')
    → (a : A) × (r ≡ ok a) × (f a e ≡ (ok b, e'))
follow_ok (ok a) f e e' b h = (a, refl, h)
follow_ok (err c) f e e' b h = absurd (cc (ap (λ p. p.0) h))

first_ok :
    (r : Result (Unit {0})) (p : Result (Unit {0}) × Engine) (e' : Engine)
    → keep_first r p ≡ (ok tt, e')
    → r ≡ ok tt
first_ok (ok u) p e' h = refl
first_ok (err c) (r, e) e' h = absurd (cc (ap (λ p. p.0) h))

-- The frame reads clean.
abbrev pub Reads : List ℕ → ℕ × ℕ → Type 0
Reads mm p = (fr : Frame) × (record_data mm p.1 ≡ ok fr)

copy_domain-Reads :
    (mm : List ℕ) (a : ℕ) (m : Map ℕ) (batch : List RecordEntry) (e e' : Engine)
    → copy_domain mm a batch m e ≡ (ok tt, e')
    → All (Reads mm) m
unfolding copy_domain
copy_domain-Reads mm a [] batch e e' h = tt
copy_domain-Reads mm a ((i, off) ∷ m) batch e e' h = elim (Result-cases (record_data mm off)) [
  | inr (c, bad) ↦ absurd (cc (ap (λ p. p.0) (rw (bad, copy_domain) at h)))
  | inl (fr, clean) ↦
      let full = batch ++ (copied a i fr ∷ []) in
      elim (Bool-cases (length full == 256)) [
        | inl whole ↦
            let (u, eq, rest) =
              follow_ok (flush full e).0 (λ _. copy_domain mm a [] m) (flush full e).1 e' tt
                (rw whole at (rw (clean, copy_domain) at h)) in
            ((fr, clean), copy_domain-Reads mm a m [] (flush full e).1 e' rest)
        | inr room ↦ (
          (fr, clean),
          copy_domain-Reads mm a m full e e' (rw room at (rw (clean, copy_domain) at h)),
        )
      ]
]

copy_domains-Reads :
    (mm : List ℕ) (index : Index) (e e' : Engine)
    → copy_domains mm index e ≡ (ok tt, e')
    → All (λ s. All (Reads mm) s.1) index
unfolding copy_domains
copy_domains-Reads mm [] e e' h = tt
copy_domains-Reads mm ((a, m) ∷ index) e e' h =
    let one = copy_domain mm a [] m e in
    let (u, eq, rest) = follow_ok one.0 (λ _. copy_domains mm index) one.1 e' tt h in
    (
      copy_domain-Reads mm a m [] e one.1 (ap (λ r. (r, one.1)) eq),
      copy_domains-Reads mm index one.1 e' rest,
    )

-- However the system calls end: where Compact succeeds, every live frame of the source read clean, so that no
-- record was left out of the new file because it was damaged.
pub compact-Reads :
    (source e e' : Engine)
    → compact source e ≡ (ok tt, e')
    → All (λ s. All (Reads (mmap source)) s.1) source.index
unfolding compact
compact-Reads source e e' h =
    let mm = mmap source in
    let fill = copy_domains mm source.index >> checkpoint in
    let (u, made, rest) =
      follow_ok (create e).0 (λ _. both fill shutdown_handles) (create e).1 e' tt h in
    let f = (create e).1 in
    let filled = first_ok (fill f).0 (shutdown_handles (fill f).1) e' rest in
    let one = copy_domains mm source.index f in
    let (v, eq, last) =
      follow_ok one.0 (λ _. checkpoint) one.1 (fill f).1 tt (ap (λ r. (r, (fill f).1)) filled) in
    copy_domains-Reads mm source.index f one.1 (ap (λ r. (r, one.1)) eq)
