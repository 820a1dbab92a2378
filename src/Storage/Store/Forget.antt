-- ===== src/Storage/Store/Forget.antt =====
-- DeleteRecord on an engine that holds a log, with a snapshot behind it or without.
use mem_hop.Prelude.{
  ℕ, ◌+◌, ◌<◌, ◌≤◌, ◌^◌, ◌≡◌, refl, sym, ap, ◌∙◌, List, [], ◌∷◌, ◌++◌, Bool, true, false, Option,
  none, some, ◌&&◌, ◌==◌, if◌then◌else◌, length, arith, inl, inr, Option-cases, Bool-cases,
  length-append,
}
use mem_hop.Errors.{ok}
use mem_hop.Storage.Domains.{offset_of}
use mem_hop.Storage.Frame.{Frame}
use mem_hop.Storage.Engine.{Engine, mmap, is_some}
use mem_hop.Storage.Delete.{old_type, delete_record}
use mem_hop.Storage.View.{View, nothing, view, view-append, Shown}
use mem_hop.Storage.Store.Erase.{delete_record_absent}
use mem_hop.Storage.Store.Bury.{old_type_lem, grave, delete_record-trimmed}
use mem_hop.Storage.Store.Sealed.{length-IsBare, mmap_whole}
use mem_hop.Storage.Store.At.{At, At-true, At-IsKept, IsBare-At, trimmed, log_bytes-grown}

-- The type byte of a shown record is the type in the store.
Shown-type :
    (mm : List ℕ) (end a i off : ℕ) (v : Option (ℕ × List ℕ))
    → Shown mm end a i (some off) v
    → (t : ℕ) × (d : List ℕ) × (v ≡ some (t, d)) × (old_type mm off ≡ t)
Shown-type mm end a i off v s =
    let (fr, clean, ea, ei, typed, low, high, eq) = s in
    (fr.record_type, fr.payload, eq, old_type_lem mm off fr clean)

same_type :
    (v : Option (ℕ × List ℕ)) (p q t u : ℕ) (d f : List ℕ)
    → v ≡ some (t, d)
    → v ≡ some (u, f)
    → p ≡ t
    → q ≡ u
    → p ≡ q
same_type v p q t u d f h k ep eq = cc (h, k, ep, eq)

-- Forgetting a record that is not there changes nothing.
absent_law :
    (a i : ℕ) (v : View)
    → v a i ≡ none
    → (b j : ℕ) → v b j ≡ (if a == b && i == j then none else v b j)
absent_law a i v gone b j = elim (Bool-cases (a == b && i == j)) [
  | inl same ↦
      let ea : a ≡ b = ground (arith, same) in
      let ei : i ≡ j = ground (arith, same) in
      rw same (ap (λ x. v x j) (sym ea) ∙ ap (v a) (sym ei) ∙ gone)
  | inr other ↦ rw other refl
]

-- What a deletion leaves, and its answer.
abbrev pub Deleted : Engine → List Frame → ℕ → Bool → ℕ → ℕ → Type 0
Deleted e log c sealed a i =
    (done : Bool) × (e' : Engine) × (log' : List Frame) × (c' : ℕ) × (delete_record a i e
      ≡ (ok done, e'))
    × (done ≡ is_some (view log nothing a i))
    × At e' log' c' sealed
    × (c' ≤ c + 1)
    × (length log' ≤ length log + 1)
    × (length e'.file ≤ length e.file + 26)
    × ((b j : ℕ)
        → view log' nothing b j ≡ (if a == b && i == j then none else view log nothing b j))

-- The deletion of a record that the index leads to.
bury :
    (e : Engine) (log : List Frame) (c : ℕ) (sealed : Bool) (a i off : ℕ)
    → At e log c true
    → c + 1 < 256 ^ 8
    → a < 256 ^ 8
    → i < 256 ^ 8
    → offset_of e.index a i ≡ some off
    → Deleted e log c sealed a i
bury e log c sealed a i off at room la li there =
    let (_, k, opened) = At-IsKept e log c at in
    let (m, c', trim, b, le, same, short) = trimmed e log c room at in
    let there' : offset_of m.index a i ≡ some off = ap (λ x. offset_of x a i) same ∙ there in
    let (t, d, e₁, p) =
      Shown-type e.file e.next_offset a i off (view log nothing a i)
        (k.shows.at a i (some off) there) in
    let (u, f, e₂, q) =
      Shown-type m.file m.next_offset a i off (view log nothing a i)
        (b.shows.at a i (some off) there') in
    let kind : old_type (mmap e) off ≡ old_type (mmap m) off =
      ap (λ l. old_type l off) (mmap_whole e k.whole)
      ∙ same_type (view log nothing a i) (old_type e.file off) (old_type m.file off) t u d f e₁ e₂ p
          q
      ∙ sym (ap (λ l. old_type l off) (mmap_whole m b.whole)) in
    let fr = grave m a i off in
    let (e', eq, b') =
      delete_record-trimmed e m log c' a i off opened there kind trim b la li there' in
    (
      true,
      e',
      log ++ (fr ∷ []),
      c',
      eq,
      ap is_some (sym e₁),
      IsBare-At e' (log ++ (fr ∷ [])) c' sealed b',
      le,
      omega (arith, length-append log (fr ∷ [])),
      omega (
        arith,
        length-IsBare e' (log ++ (fr ∷ [])) c' b',
        log_bytes-grown log fr,
        length-IsBare m log c' b,
        short,
      ),
      λ b j. ap (λ (v : View). v b j) (view-append log fr nothing),
    )

-- When no system call fails: the deletion of a record from an open engine that holds a log succeeds and says whether the record was
-- in the store; it is gone from the store then, and all others stay.
pub delete_record-At :
    (e : Engine) (log : List Frame) (c : ℕ) (sealed : Bool) (a i : ℕ)
    → At e log c sealed
    → c + 1 < 256 ^ 8
    → a < 256 ^ 8
    → i < 256 ^ 8
    → Deleted e log c sealed a i
delete_record-At e log c sealed a i at room la li = elim (Option-cases (offset_of e.index a i)) [
  | inl absent ↦
      let (_, k, opened) = At-IsKept e log c (At-true e log c sealed at) in
      let gone : view log nothing a i ≡ none = k.shows.at a i none absent in
      (
        false,
        e,
        log,
        c,
        delete_record_absent e a i opened absent,
        ap is_some (sym gone),
        at,
        omega arith,
        omega arith,
        omega arith,
        absent_law a i (view log nothing) gone,
      )
  | inr (off, there) ↦ bury e log c sealed a i off (At-true e log c sealed at) room la li there
]
