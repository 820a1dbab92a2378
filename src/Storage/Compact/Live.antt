-- ===== src/Storage/Compact/Live.antt =====
-- The live records of an index as a batch, and the store that their frames stand for.
use mem_hop.Prelude.{
  ℕ, ◌≡◌, refl, sym, ap, ◌∙◌, List, [], ◌∷◌, ◌++◌, Bool, true, false, Option, some, none, ◌==◌,
  ◌&&◌, if◌then◌else◌, arith, All, Bool-cases, ==_iff, inl, inr,
}
use mem_hop.Prelude.Map.{Map, get, Distinct}
use mem_hop.Errors.{Result, ok, err}
use mem_hop.Storage.Domains.{Index, offset_of}
use mem_hop.Storage.Frame.{Frame, record_data}
use mem_hop.Storage.Write.{RecordEntry}
use mem_hop.Storage.View.{View, view, after}
use mem_hop.Storage.Store.Batch.{frame_of_entry, latest, first_of, first_of-none, latest-append}
use mem_hop.Storage.Store.Batch.Log.{frames_of}
use mem_hop.Storage.Compact.{copied}

-- The records that one domain, and an index, lead to in a file.
abbrev pub add_live : ℕ → ℕ → Result Frame → List RecordEntry → List RecordEntry
add_live a i (ok fr) rest = copied a i fr ∷ rest
add_live a i (err c) rest = rest

abbrev pub live_of : List ℕ → ℕ → Map ℕ → List RecordEntry
live_of mm a [] = []
live_of mm a ((i, off) ∷ m) = add_live a i (record_data mm off) (live_of mm a m)

abbrev pub live_records : List ℕ → Index → List RecordEntry
live_records mm [] = []
live_records mm ((a, m) ∷ index) = live_of mm a m ++ live_records mm index

-- What a frame, and an index, says of a record.
abbrev pub content : Result Frame → Option (ℕ × List ℕ)
content (ok fr) = some (fr.record_type, fr.payload)
content (err c) = none

abbrev pub said : List ℕ → Option ℕ → Option (ℕ × List ℕ)
said mm none = none
said mm (some off) = content (record_data mm off)

step_lem :
    (later : Option (ℕ × List ℕ)) (same : Bool) (w : ℕ × List ℕ) (old : Option (ℕ × List ℕ))
    → first_of later (if same then some w else old)
      ≡ first_of (elim later [ some x ↦ some x | none ↦ if same then some w else none ]) old
step_lem (some x) same w old = refl
step_lem none true w old = refl
step_lem none false w old = refl

pub view-frames_of :
    (rs : List RecordEntry) (v : View) (b j : ℕ)
    → view (frames_of rs) v b j ≡ first_of (latest rs b j) (v b j)
view-frames_of [] v b j = refl
view-frames_of (r ∷ rs) v b j =
    view-frames_of rs (after (frame_of_entry r) v) b j
    ∙ step_lem (latest rs b j) (r.agent_id == b && r.id_hash == j) (r.record_type, r.payload)
        (v b j)

kept_as_is : (o : Option (ℕ × List ℕ)) → elim o [ some x ↦ some x | none ↦ none ] ≡ o
kept_as_is none = refl
kept_as_is (some x) = refl

same_key {ℓ} :
    {V : Type ℓ} (m : Map V) (i j : ℕ) → get m i ≡ none → (i == j) ≡ true → get m j ≡ none
same_key m i j gone same = ap (get m) (sym ((==_iff i j).0 same)) ∙ gone

no_word :
    (o : Option (ℕ × List ℕ)) (same : Bool)
    → o ≡ elim o [ some x ↦ some x | none ↦ if same then none else none ]
no_word (some x) same = refl
no_word none true = refl
no_word none false = refl

latest-add_live :
    (a i : ℕ) (r : Result Frame) (rs : List RecordEntry) (b j : ℕ)
    → latest (add_live a i r rs) b j ≡ elim (latest rs b j) [
      | some x ↦ some x
      | none ↦ if a == b && i == j then content r else none
    ]
latest-add_live a i (ok fr) rs b j = refl
latest-add_live a i (err c) rs b j = no_word (latest rs b j) (a == b && i == j)

front :
    (mm : List ℕ) (here same : Bool) (off : ℕ) (o : Option ℕ)
    → (same ≡ true → o ≡ none)
    → elim (if here then said mm o else none) [
      | some x ↦ some x
      | none ↦ if here && same then content (record_data mm off) else none
    ]
      ≡ (if here then said mm (if same then some off else o) else none)
front mm false same off o h = refl
front mm true false off o h = kept_as_is (said mm o)
front mm true true off none h = refl
front mm true true off (some x) h = absurd (cc (h refl))

latest-live_of :
    (mm : List ℕ) (a : ℕ) (m : Map ℕ) (b j : ℕ)
    → Distinct m
    → latest (live_of mm a m) b j ≡ (if a == b then said mm (get m j) else none)
unfolding get
latest-live_of mm a [] b j d = ground arith
latest-live_of mm a ((i, off) ∷ m) b j d =
    latest-add_live a i (record_data mm off) (live_of mm a m) b j
    ∙ rw (latest-live_of mm a m b j d.1)
        (front mm (a == b) (i == j) off (get m j) (same_key m i j d.0))

-- The last word of all the live records is what the index says.
pub latest-live_records :
    (mm : List ℕ) (index : Index) (b j : ℕ)
    → Distinct index
    → All (λ s. Distinct s.1) index
    → latest (live_records mm index) b j ≡ said mm (offset_of index b j)
unfolding get
latest-live_records mm [] b j d k = refl
latest-live_records mm ((a, m) ∷ index) b j d k =
    latest-append (live_of mm a m) (live_records mm index) b j ∙ elim (Bool-cases (a == b)) [
      | inl here ↦
          let gone : get index b ≡ none = same_key index a b d.0 here in
          rw (latest-live_records mm index b j d.1 k.1, latest-live_of mm a m b j k.0, here, gone)
            refl
      | inr other ↦
          rw (latest-live_records mm index b j d.1 k.1, latest-live_of mm a m b j k.0, other)
            (sym (first_of-none (said mm (offset_of index b j))))
    ]
