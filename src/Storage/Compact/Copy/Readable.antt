-- ===== src/Storage/Compact/Copy/Readable.antt =====
-- An engine that holds a log: every frame that its index leads to reads clean and can be stored again.
use mem_hop.Prelude.{
  ℕ, ◌<◌, ◌^◌, ◌≡◌, refl, sym, ap, List, [], ◌∷◌, Option, some, none, ◌==◌, ◌&&◌, arith, subst, All,
  length, Bool-cases, inl, inr, ==_iff, ==_self,
}
use Prim.Native.Nat.{bit_and}
use mem_hop.Prelude.Map.{Map, get, Distinct}
use mem_hop.Errors.{ok}
use mem_hop.Storage.Domains.{Index}
use mem_hop.Storage.Domains.Tidy.{IsTidy, KeysFit}
use mem_hop.Storage.Frame.{Frame, record_data, flag_deleted}
use mem_hop.Storage.Frame.RoundTrip.{IsStorable}
use mem_hop.Storage.View.{View, nothing, view, after, Shows, Shown}
use mem_hop.Storage.Store.Batch.{frame_of_entry}
use mem_hop.Storage.Compact.{copied}
use mem_hop.Storage.Compact.Live.{said}

-- A frame that a domain leads to reads clean, and its record can be stored again.
abbrev pub IsReadable : List ℕ → ℕ → ℕ × ℕ → Type 0
IsReadable mm a p =
    (fr : Frame) × (record_data mm p.1 ≡ ok fr) × IsStorable (frame_of_entry (copied a p.0 fr))

-- Its entries are the lookups of a map without repeated keys.
pub All-get {ℓ} :
    {V : Type ℓ} (m n : Map V)
    → Distinct m
    → ((k : ℕ) (v : V) → get m k ≡ some v → get n k ≡ some v)
    → All (λ p. get n p.0 ≡ some p.1) m
unfolding get
All-get [] n d h = tt
All-get ((k, v) ∷ m) n d h = (
  h k v (rw (==_self k) refl),
  All-get m n d.1 (λ j w e. h j w (elim (Bool-cases (k == j)) [
    | inl same ↦ absurd (cc (d.0, ap (get m) ((==_iff k j).0 same), e))
    | inr differs ↦ rw differs e
  ])),
)

stored_size :
    (fr : Frame) (u : ℕ) (f : List ℕ)
    → IsStorable fr
    → ◌≡◌ {A = Option (ℕ × List ℕ)} (some (fr.record_type, fr.payload)) (some (u, f))
    → (0 < u) × (length f < 256 ^ 4)
stored_size fr u f s k =
    let typed : fr.record_type ≡ u = cc k in
    let size : fr.payload ≡ f = cc k in
    (omega (arith, typed, s.typed), subst (λ l. length l < 256 ^ 4) size s.sized)

-- A record of the store came from a frame of the log.
view-sized :
    (log : List Frame) (v : View) (a i t : ℕ) (d : List ℕ)
    → ((u : ℕ) (f : List ℕ) → v a i ≡ some (u, f) → (0 < u) × (length f < 256 ^ 4))
    → All IsStorable log
    → view log v a i ≡ some (t, d)
    → (0 < t) × (length d < 256 ^ 4)
view-sized [] v a i t d h s e = h t d e
view-sized (fr ∷ log) v a i t d h s e =
    view-sized log (after fr v) a i t d
      (λ u f k. elim (Bool-cases (fr.agent_id == a && fr.id_hash == i)) [
        | inr other ↦ h u f (rw other at k)
        | inl same ↦ elim (Bool-cases (bit_and fr.flags flag_deleted == 0)) [
          | inr dead ↦ absurd (cc (rw (same, dead) at k))
          | inl live ↦ stored_size fr u f s.0 (rw (same, live) at k)
        ]
      ])
      s.1 e

-- The frame that a lookup of the index leads to.
IsReadable-Shown :
    (mm : List ℕ) (end : ℕ) (log : List Frame) (a i off : ℕ)
    → All IsStorable log
    → a < 256 ^ 8
    → i < 256 ^ 8
    → Shown mm end a i (some off) (view log nothing a i)
    → IsReadable mm a (i, off)
IsReadable-Shown mm end log a i off s la li (fr, clean, ea, ei, typed, low, high, e) =
    let (t, d) =
      view-sized log nothing a i fr.record_type fr.payload (λ u f k. absurd (cc k)) s e in
    (fr, clean, record { typed = t; sized = d; agent = la; id = li })

All-both {ℓ} :
    {A : Type ℓ} (P Q R : A → Type 0) (xs : List A)
    → ((x : A) → P x → Q x → R x)
    → All P xs
    → All Q xs
    → All R xs
All-both P Q R [] h p q = tt
All-both P Q R (x ∷ xs) h p q = (h x p.0 q.0, All-both P Q R xs h p.1 q.1)

pub readable :
    (mm : List ℕ) (end : ℕ) (log : List Frame) (index : Index)
    → All IsStorable log
    → IsTidy index
    → Shows mm end index (view log nothing)
    → All (λ s. All (IsReadable mm s.0) s.1) index
readable mm end log index s tidy shows =
    All-both (λ s. get index s.0 ≡ some s.1) KeysFit (λ s. All (IsReadable mm s.0) s.1) index
      (λ x at fit.
        All-both (λ p. get x.1 p.0 ≡ some p.1) (λ p. p.0 < 256 ^ 8) (IsReadable mm x.0) x.1
          (λ p there small.
            IsReadable-Shown mm end log x.0 p.0 p.1 s fit.0 small
              (shows.at x.0 p.0 (some p.1) (rw at there)))
          (All-get x.1 x.1 fit.1 (λ k v e. e)) fit.2)
      (All-get index index tidy.domains (λ k v e. e)) tidy.keys

pub tidy_domains : (index : Index) → All KeysFit index → All (λ s. Distinct s.1) index
tidy_domains [] h = tt
tidy_domains (s ∷ index) h = (h.0.1, tidy_domains index h.1)

-- What the index says of its records is what the store holds.
pub said-view :
    (mm : List ℕ) (end : ℕ) (v : View) (a i : ℕ) (o : Option ℕ)
    → Shown mm end a i o (v a i)
    → said mm o ≡ v a i
said-view mm end v a i none s = sym s
said-view mm end v a i (some off) (fr, clean, ea, ei, typed, low, high, e) = rw (clean, e) refl
