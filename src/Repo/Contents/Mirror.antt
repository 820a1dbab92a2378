-- ===== src/Repo/Contents/Mirror.antt =====
-- The content mirror and the records: every entry names a record that reads back as the slot it stands for, and an
-- append keeps it so.
use mem_hop.Prelude.{
  ℕ, ◌<◌, ◌≤◌, ◌≡◌, ◌≢◌, refl, sym, ◌∙◌, List, [], ◌∷◌, Bool, true, false, Option, none, some, ◌==◌,
  ltb, ==_self, ==_iff, ==_ne, if◌then◌else◌, arith, All, Bool-cases, inl, inr, subst,
}
use mem_hop.Errors.{Result, ok, ◌>>=◌}
use mem_hop.Storage.Store.Batch.{over}
use mem_hop.Index.Content.{Entry, ContentIndex, at_topic, insert_entry, append}
use mem_hop.Index.Content.Order.{IsOrdered, RisesFrom, at_topic-append}
use mem_hop.Records.{decode}
use mem_hop.Records.Laws.{IsLossless}
use mem_hop.Repo.Contents.{ArchiveSlot, hash_content, entry_of, addressed}

module _ (P Q : Entry → Type 0) (e : Entry) (keep : (x : Entry) → x.seq ≢ e.seq → Q x → P x) where
  All-above : (low : ℕ) (es : List Entry) → e.seq ≤ low → RisesFrom low es → All Q es → All P es
  All-above low [] h r q = tt
  All-above low (x ∷ xs) h r q = (
    keep x (λ s. omega (arith, s, h, r.0)) q.0,
    All-above x.seq xs (omega (arith, h, r.0)) r.1 q.1,
  )

  -- What holds of the entry that is put in, and of those with another Seq, holds of all of them behind it.
  insert_entry-All :
      (low : ℕ) (es : List Entry) → P e → RisesFrom low es → All Q es → All P (insert_entry e es)
  unfolding insert_entry
  insert_entry-All low [] p r q = (p, tt)
  insert_entry-All low (x ∷ xs) p r q = elim (Bool-cases (ltb x.seq e.seq)) [
    | inl below ↦
        rw below (keep x (λ s. ground (arith, s, below)) q.0, insert_entry-All x.seq xs p r.1 q.1)
    | inr above ↦ rw above (elim (Bool-cases (x.seq == e.seq)) [
      | inl same ↦ rw same (p, All-above x.seq xs (ground (arith, same)) r.1 q.1)
      | inr other ↦
          let le : e.seq ≤ x.seq = ground (arith, above) in
          rw other (p, (keep x (λ s. ground (arith, s, other)) q.0, All-above x.seq xs le r.1 q.1))
    ])
  ]

pub over_first :
    (o : Option (ℕ × List ℕ)) (mine : Bool) (w : ℕ × List ℕ) (raw : Result (ℕ × List ℕ))
    → over (elim o [ some v ↦ some v | none ↦ if mine then some w else none ]) raw
      ≡ over o (if mine then ok w else raw)
over_first (some v) mine w raw = refl
over_first none true w raw = refl
over_first none false w raw = refl

-- `used` are the addresses in use, no two of which have the same hash.
module _ (marshal : ArchiveSlot → Option (List ℕ)) (unmarshal : List ℕ → Option ArchiveSlot)
    (xxhash : List ℕ → ℕ) (used : ℕ → ℕ → Bool) where
  -- An entry of a topic names a record that reads back as a slot of that topic, with the figures of the entry.
  abbrev pub IsFaithful : (ℕ → Result (ℕ × List ℕ)) → ℕ → Entry → Type 0
  IsFaithful reading u e =
      (arc : ArchiveSlot) × ((reading e.id_hash >>= decode unmarshal 8) ≡ ok arc)
      × (arc.topic_id ≡ u)
      × (entry_of arc ≡ e)
      × (e.id_hash ≡ hash_content xxhash u e.seq)
      × (used u e.seq ≡ true)

  abbrev pub IsMirrored : (ℕ → Result (ℕ × List ℕ)) → ContentIndex → Type 0
  IsMirrored reading idx = (u : ℕ) → All (IsFaithful reading u) (at_topic idx u)

  -- A slot that can be marshalled under its address, has a Seq above 0 and an address in use.
  abbrev pub IsAppendable : ArchiveSlot → Type 0
  IsAppendable arc =
      (bytes : List ℕ) × (marshal (addressed marshal xxhash arc) ≡ some bytes)
      × (0 < arc.seq)
      × (used arc.topic_id arc.seq ≡ true)

  abbrev pub AreApart : Type 0
  AreApart =
      (t s u v : ℕ)
      → used t s ≡ true
      → used u v ≡ true
      → hash_content xxhash t s ≡ hash_content xxhash u v
      → (t ≡ u) × (s ≡ v)

  pub All-map :
      (P Q : Entry → Type 0) (es : List Entry) → ((e : Entry) → P e → Q e) → All P es → All Q es
  All-map P Q [] f p = tt
  All-map P Q (e ∷ es) f p = (f e p.0, All-map P Q es f p.1)

  pub faithful-ext :
      (r r' : ℕ → Result (ℕ × List ℕ)) (u : ℕ) (e : Entry)
      → r' e.id_hash ≡ r e.id_hash
      → IsFaithful r u e
      → IsFaithful r' u e
  faithful-ext r r' u e h (arc, reads, at, same, addr, known) =
      (arc, rw h reads, at, same, addr, known)

  module _ (lossless : IsLossless marshal unmarshal) (apart : AreApart) where
    module _ (arc : ArchiveSlot) (bytes : List ℕ)
        (m : marshal (addressed marshal xxhash arc) ≡ some bytes)
        (known : used arc.topic_id arc.seq ≡ true) (r r' : ℕ → Result (ℕ × List ℕ))
        (law : (j : ℕ)
          → r' j
            ≡ (if hash_content xxhash arc.topic_id arc.seq == j then ok (8, bytes) else r j)) where
      mine : IsFaithful r' arc.topic_id (entry_of (addressed marshal xxhash arc))
      mine = (
        addressed marshal xxhash arc,
        rw (law (hash_content xxhash arc.topic_id arc.seq), ==_self)
            (rw (lossless.back (addressed marshal xxhash arc) bytes m) refl),
        refl,
        refl,
        refl,
        known,
      )

      others :
          (u : ℕ) (e : Entry)
          → (u ≡ arc.topic_id → e.seq ≡ arc.seq → ⊥)
          → IsFaithful r u e
          → IsFaithful r' u e
      others u e ne (old, reads, at, same, addr, here) =
          faithful-ext r r' u e
            (law e.id_hash
              ∙ rw
                  (==_ne (hash_content xxhash arc.topic_id arc.seq) e.id_hash (λ h.
                    let (t, s) = apart arc.topic_id arc.seq u e.seq known here (h ∙ addr) in
                    ne (sym t) (sym s)))
                  refl)
            (old, reads, at, same, addr, here)

      -- One append keeps the mirror.
      pub append-IsMirrored :
          (idx : ContentIndex)
          → IsOrdered idx
          → IsMirrored r idx
          → IsMirrored r' (append idx arc.topic_id (entry_of (addressed marshal xxhash arc)))
      append-IsMirrored idx o k u =
          rw (at_topic-append idx arc.topic_id (entry_of (addressed marshal xxhash arc)) u)
            (elim (Bool-cases (arc.topic_id == u)) [
              | inl same ↦ rw same (
                  subst
                    (λ v. All (IsFaithful r' v) (
                      insert_entry (entry_of (addressed marshal xxhash arc))
                        (at_topic idx arc.topic_id)))
                    ((==_iff arc.topic_id u).0 same)
                    (insert_entry-All (IsFaithful r' arc.topic_id) (IsFaithful r arc.topic_id)
                      (entry_of (addressed marshal xxhash arc))
                      (λ x ne f. others arc.topic_id x (λ t s. ne s) f) 0
                      (at_topic idx arc.topic_id) mine (o.rises arc.topic_id) (k arc.topic_id)))
              | inr other ↦ rw other (
                  All-map (IsFaithful r u) (IsFaithful r' u) (at_topic idx u)
                    (λ x f. others u x (λ t s. ground (arith, t, other)) f) (k u))
            ])
