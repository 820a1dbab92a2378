-- ===== src/Storage/View.antt =====
-- The store that a log of frames stands for: the type and the payload of each record, by its agent
-- and its id. An index shows a store when every lookup leads to the frame that holds the record.
pub mod Replay
use Prim.Native.Nat.{bit_and}
use mem_hop.Prelude.{
  ℕ, ◌+◌, ◌≤◌, ◌<◌, ◌≡◌, sym, ap, subst, List, [], ◌∷◌, ◌++◌, Option, none, some, Bool, true, false,
  ◌&&◌, ◌==◌, if◌then◌else◌, length, arith, Bool-cases, Option-cases, inl, inr, ◌∙◌, refl, All,
}
use mem_hop.Prelude.Map.{get}
use mem_hop.Errors.{Result, ok, err, not_found}
use mem_hop.Storage.Domains.{Index, offset_of}
use mem_hop.Storage.Frame.{Frame, record_data, flag_deleted}
use mem_hop.Storage.Read.{read_at, read_result}

abbrev pub View : Type 0
View = ℕ → ℕ → Option (ℕ × List ℕ)

abbrev pub nothing : View
nothing a i = none

-- What a frame says of its record.
abbrev pub told : Frame → Option (ℕ × List ℕ)
told fr = if bit_and fr.flags flag_deleted == 0 then some (fr.record_type, fr.payload) else none

abbrev pub after : Frame → View → View
after fr v a i = if fr.agent_id == a && fr.id_hash == i then told fr else v a i

abbrev pub view : List Frame → View → View
view [] v = v
view (fr ∷ log) v = view log (after fr v)

pub view-append :
    (log : List Frame) (fr : Frame) (v : View) → view (log ++ (fr ∷ [])) v ≡ after fr (view log v)
view-append [] fr v = refl
view-append (x ∷ log) fr v = view-append log fr (after x v)

-- What ReadRecord answers for a record of the store.
abbrev pub answer : Option (ℕ × List ℕ) → Result (ℕ × List ℕ)
answer none = err not_found
answer (some r) = ok r

-- A lookup of record (a, i) that leads to `o`, where the store has `v`.
abbrev pub Shown : List ℕ → ℕ → ℕ → ℕ → Option ℕ → Option (ℕ × List ℕ) → Type 0
Shown mm end a i none v = v ≡ none
Shown mm end a i (some off) v =
    (fr : Frame) × (record_data mm off ≡ ok fr)
    × (fr.agent_id ≡ a)
    × (fr.id_hash ≡ i)
    × (0 < fr.record_type)
    × (8192 ≤ off)
    × (off + 26 + length fr.payload ≤ end)
    × (v ≡ some (fr.record_type, fr.payload))

pub record Shows (mm : List ℕ) (end : ℕ) (index : Index) (v : View) : Type 0 where
  pub at : (a i : ℕ) (o : Option ℕ) → offset_of index a i ≡ o → Shown mm end a i o (v a i)

pub Shows-empty : (mm : List ℕ) (end : ℕ) → Shows mm end [] nothing
unfolding get
Shows-empty mm end = record { at = λ a i o h. subst (λ o. Shown mm end a i o none) h refl }

-- The lookups when a frame at `p` is entered into the index.
abbrev pub Entered : Frame → ℕ → Index → Index → Type 0
Entered fr p index index' =
    (b j : ℕ)
    → offset_of index' b j ≡ (
        if fr.agent_id == b && fr.id_hash == j
        then (if bit_and fr.flags flag_deleted == 0 then some p else none)
        else offset_of index b j)

-- The frame's own record.
same_Shown :
    (mm : List ℕ) (end : ℕ) (fr : Frame) (p b j : ℕ) (o : Option ℕ)
    → record_data mm p ≡ ok fr
    → 0 < fr.record_type
    → 8192 ≤ p
    → p + 26 + length fr.payload ≤ end
    → fr.agent_id ≡ b
    → fr.id_hash ≡ j
    → (if bit_and fr.flags flag_deleted == 0 then some p else none) ≡ o
    → Shown mm end b j o (told fr)
same_Shown mm end fr p b j none clean typed low high ea ei e =
    elim (Bool-cases (bit_and fr.flags flag_deleted == 0)) [
      | inl live ↦ absurd (cc (rw live at e))
      | inr dead ↦ rw dead refl
    ]
same_Shown mm end fr p b j (some off) clean typed low high ea ei e =
    elim (Bool-cases (bit_and fr.flags flag_deleted == 0)) [
      | inl live ↦
          let here : p ≡ off = ground (arith, live) in
          (
            fr,
            rw (← here) clean,
            ea,
            ei,
            typed,
            omega (arith, here),
            omega (arith, here),
            rw live refl,
          )
      | inr dead ↦ absurd (cc (rw dead at e))
    ]

-- Another record.
other_Shown :
    (mm mm' : List ℕ) (end end' a i : ℕ) (o : Option ℕ) (v : Option (ℕ × List ℕ))
    → ((off : ℕ) (fr : Frame)
        → 8192 ≤ off
        → off + 26 + length fr.payload ≤ end
        → record_data mm off ≡ ok fr
        → record_data mm' off ≡ ok fr)
    → end ≤ end'
    → Shown mm end a i o v
    → Shown mm' end' a i o v
other_Shown mm mm' end end' a i none v keeps le s = s
other_Shown mm mm' end end' a i (some off) v keeps le s =
    let (fr, clean, ea, ei, typed, low, high, e) = s in
    (fr, keeps off fr low high clean, ea, ei, typed, low, omega (arith, high), e)

-- Frames that stay where they are, in a record area that may have grown.
pub Shows-keep :
    (mm mm' : List ℕ) (end end' : ℕ) (index index' : Index) (v : View)
    → ((off : ℕ) (fr : Frame)
        → 8192 ≤ off
        → off + 26 + length fr.payload ≤ end
        → record_data mm off ≡ ok fr
        → record_data mm' off ≡ ok fr)
    → end ≤ end'
    → ((a i : ℕ) → offset_of index' a i ≡ offset_of index a i)
    → Shows mm end index v
    → Shows mm' end' index' v
Shows-keep mm mm' end end' index index' v keeps le same s = record {
  at = λ a i o h.
      other_Shown mm mm' end end' a i o (v a i) keeps le (s.at a i o (sym (same a i) ∙ h));
}

-- One more frame: the index in which it is entered shows the store after it.
pub Shows-after :
    (mm mm' : List ℕ) (end end' p : ℕ) (fr : Frame) (index index' : Index) (v : View)
    → ((off : ℕ) (fr : Frame)
        → 8192 ≤ off
        → off + 26 + length fr.payload ≤ end
        → record_data mm off ≡ ok fr
        → record_data mm' off ≡ ok fr)
    → end ≤ end'
    → record_data mm' p ≡ ok fr
    → 0 < fr.record_type
    → 8192 ≤ p
    → p + 26 + length fr.payload ≤ end'
    → Entered fr p index index'
    → Shows mm end index v
    → Shows mm' end' index' (after fr v)
Shows-after mm mm' end end' p fr index index' v keeps le clean typed low high entered s = record {
  at = λ a i o h. elim (Bool-cases (fr.agent_id == a && fr.id_hash == i)) [
    | inl same ↦ rw same (
        same_Shown mm' end' fr p a i o clean typed low high (ground (arith, same))
          (ground (arith, same)) (rw same at (sym (entered a i) ∙ h)))
    | inr other ↦ rw other (
        other_Shown mm mm' end end' a i o (v a i) keeps le
          (s.at a i o (rw other at (sym (entered a i) ∙ h))))
  ];
}

-- A record that an index leads to reads as the store says.
pub read_at-Shown :
    (mm : List ℕ) (end a i : ℕ) (o : Option ℕ) (v : Option (ℕ × List ℕ))
    → Shown mm end a i o v
    → read_at mm o ≡ answer v
read_at-Shown mm end a i none v s = rw s refl
read_at-Shown mm end a i (some off) v s =
    let (fr, clean, ea, ei, typed, low, high, e) = s in rw (clean, e) refl
