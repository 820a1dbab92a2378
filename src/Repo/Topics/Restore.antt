-- ===== src/Repo/Topics/Restore.antt =====
-- RestoreSunkTopicsL2, when no system call fails, and how it undoes CompressTopicsL2.
use mem_hop.Prelude.{
  ℕ, ◌<◌, ◌^◌, ◌≡◌, refl, sym, ap, ◌∙◌, List, [], ◌∷◌, Bool, true, false, Option, some, none, ◌==◌,
  ◌&&◌, ◌||◌, if◌then◌else◌, contains, arith, All, Bool-cases, inl, inr, subst,
}
use mem_hop.Errors.{ok, err, ◌>>=◌}
use mem_hop.Storage.Engine.{Engine}
use mem_hop.Storage.Read.{read_record}
use mem_hop.Storage.Ready.{IsReady}
use mem_hop.Storage.Frame.RoundTrip.{IsStorable}
use mem_hop.Storage.Store.{frame_of}
use mem_hop.Index.Topics.{TopicSlot}
use mem_hop.Records.{is_not_found}
use mem_hop.Records.Laws.{IsLossless, write_json-read_record}
use mem_hop.Repo.Topics.{
  rise, hangs_on, decode_topic, read_topic_lenient, restore_one, restore_sunk_topics_l2,
}
use mem_hop.Repo.Topics.Sink.{Reading}

-- What restoring makes of a reading.
abbrev pub risen : ℕ → Reading → Reading
risen parent (err c) = err c
risen parent (ok none) = ok none
risen parent (ok (some t)) = if hangs_on parent t.parent_id then ok (some (rise t)) else ok (some t)

-- A record's own reading, wherever it is asked for.
own_reading :
    (unmarshal : List ℕ → Option TopicSlot) (e : Engine) (a id : ℕ) (r : Reading)
    → read_topic_lenient unmarshal e a id ≡ r
    → (b j : ℕ)
    → read_topic_lenient unmarshal e b j
      ≡ (if a == b && id == j then r else read_topic_lenient unmarshal e b j)
own_reading unmarshal e a id r h b j = elim (Bool-cases (a == b && id == j)) [
  | inl same ↦
      let ea : a ≡ b = ground (arith, same) in
      let ei : id ≡ j = ground (arith, same) in
      rw same (
        ap (λ x. read_topic_lenient unmarshal e x j) (sym ea)
        ∙ ap (read_topic_lenient unmarshal e a) (sym ei)
        ∙ h)
  | inr other ↦ rw other refl
]

module _ (marshal : TopicSlot → Option (List ℕ)) (unmarshal : List ℕ → Option TopicSlot) where
  -- A topic that hangs on the parent stands at its own id and can be marshalled when it has risen.
  abbrev pub IsRisable : ℕ → ℕ → Reading → Type 0
  IsRisable parent id (err c) = is_not_found c ≡ true
  IsRisable parent id (ok none) = Unit {0}
  IsRisable parent id (ok (some t)) =
      if hangs_on parent t.parent_id
      then ((bytes : List ℕ) × (t.id ≡ id) × (id < 256 ^ 8) × (marshal (rise t) ≡ some bytes))
      else Unit {0}

  module _ (lossless : IsLossless marshal unmarshal) (a parent : ℕ) (la : a < 256 ^ 8) where
    -- The readings behind one round.
    abbrev Round : Engine → ℕ → Reading → Type 0
    Round e id r =
        (e' : Engine) × (restore_one marshal unmarshal a parent r e ≡ (ok tt, e'))
        × IsReady e'
        × (e'.plan ≡ [])
        × ((b j : ℕ)
            → read_topic_lenient unmarshal e' b j
              ≡ (if a == b && id == j then risen parent r else read_topic_lenient unmarshal e b j))

    restore_one_lem :
        (e : Engine) (id : ℕ) (r : Reading)
        → e.plan ≡ []
        → IsReady e
        → read_topic_lenient unmarshal e a id ≡ r
        → IsRisable parent id r
        → Round e id r
    unfolding read_topic_lenient
    restore_one_lem e id (err c) calm ready h s =
        (e, rw s refl, ready, calm, λ b j. own_reading unmarshal e a id (err c) h b j)
    restore_one_lem e id (ok none) calm ready h s =
        (e, refl, ready, calm, λ b j. own_reading unmarshal e a id (ok none) h b j)
    restore_one_lem e id (ok (some t)) calm ready h s =
        elim (Bool-cases (hangs_on parent t.parent_id)) [
          | inr free ↦ (
            e,
            rw free refl,
            ready,
            calm,
            λ b j. rw free (own_reading unmarshal e a id (ok (some t)) h b j),
          )
          | inl hangs ↦
              let (bytes, at, small, m) = rw hangs at s in
              let fit : IsStorable (frame_of a 4 t.id bytes) = record {
                typed = omega arith;
                sized = lossless.sized (rise t) bytes m;
                agent = la;
                id = omega (arith, at);
              } in
              let (e', eq, ready', calm', law) =
                write_json-read_record marshal unmarshal e a 4 t.id (rise t) bytes calm ready fit
                  m in
              (
                e',
                rw hangs eq,
                ready',
                calm',
                λ b j.
                    ap (λ x. x >>= decode_topic unmarshal) (law b j)
                    ∙ ap
                        (λ k.
                          (if a == b && k == j then ok (4, bytes) else read_record e b j)
                          >>= decode_topic unmarshal)
                        at
                    ∙ elim (Bool-cases (a == b && id == j)) [
                      | inl same ↦ rw (same, hangs) (rw (lossless.back (rise t) bytes m) refl)
                      | inr other ↦ rw other refl
                    ],
              )
        ]

    risen-risen : (r : Reading) → risen parent (risen parent r) ≡ risen parent r
    risen-risen (err c) = refl
    risen-risen (ok none) = refl
    risen-risen (ok (some t)) = elim (Bool-cases (hangs_on parent t.parent_id)) [
      | inl hangs ↦ rw hangs refl
      | inr free ↦ rw free (rw free refl)
    ]

    IsRisable-risen :
        (id : ℕ) (r : Reading) → IsRisable parent id r → IsRisable parent id (risen parent r)
    IsRisable-risen id (err c) s = s
    IsRisable-risen id (ok none) s = s
    IsRisable-risen id (ok (some t)) s = elim (Bool-cases (hangs_on parent t.parent_id)) [
      | inl hangs ↦ rw hangs tt
      | inr free ↦ rw free (rw free tt)
    ]

    twice_risen :
        (r : Reading) (p s q : Bool)
        → (if p && q
            then risen parent (if p && s then risen parent r else r)
            else (if p && s then risen parent r else r))
          ≡ (if p && (s || q) then risen parent r else r)
    twice_risen r false s q = refl
    twice_risen r true true true = risen-risen r
    twice_risen r true true false = refl
    twice_risen r true false true = refl
    twice_risen r true false false = refl

    -- The round's law, in each record's own reading.
    own_law :
        (e : Engine) (id b j : ℕ)
        → (if a == b && id == j
            then risen parent (read_topic_lenient unmarshal e a id)
            else read_topic_lenient unmarshal e b j)
          ≡ (if a == b && id == j
              then risen parent (read_topic_lenient unmarshal e b j)
              else read_topic_lenient unmarshal e b j)
    own_law e id b j = elim (Bool-cases (a == b && id == j)) [
      | inl same ↦ rw same (
          ap (risen parent) (
            sym (
              own_reading unmarshal e a id (read_topic_lenient unmarshal e a id) refl b j
              ∙ rw same refl)))
      | inr other ↦ rw other refl
    ]

    pub All-then : (P Q : ℕ → Type 0) (xs : List ℕ) → ((x : ℕ) → P x → Q x) → All P xs → All Q xs
    All-then P Q [] f h = tt
    All-then P Q (x ∷ xs) f h = (f x h.0, All-then P Q xs f h.1)

    still :
        (p : Bool) (i : ℕ) (r : Reading)
        → IsRisable parent i r
        → IsRisable parent i (if p then risen parent r else r)
    still true i r s = IsRisable-risen i r s
    still false i r s = s

    -- When no system call fails: each listed topic that hangs on the parent has risen, all others read as
    -- before.
    pub restore_sunk_topics_l2_lem :
        (e : Engine) (ids : List ℕ)
        → e.plan ≡ []
        → IsReady e
        → All (λ i. IsRisable parent i (read_topic_lenient unmarshal e a i)) ids
        → (e' : Engine) × (restore_sunk_topics_l2 marshal unmarshal a ids parent e ≡ (ok tt, e'))
          × IsReady e'
          × (e'.plan ≡ [])
          × ((b j : ℕ)
              → read_topic_lenient unmarshal e' b j ≡ (
                  if a == b && contains ids j
                  then risen parent (read_topic_lenient unmarshal e b j)
                  else read_topic_lenient unmarshal e b j))
    unfolding restore_sunk_topics_l2
    restore_sunk_topics_l2_lem e [] calm ready s = (e, refl, ready, calm, λ b j. ground arith)
    restore_sunk_topics_l2_lem e (id ∷ ids) calm ready s =
        let (e₁, eq₁, ready₁, calm₁, law₁) =
          restore_one_lem e id (read_topic_lenient unmarshal e a id) calm ready refl s.0 in
        let law = λ (b j : ℕ). law₁ b j ∙ own_law e id b j in
        let s₁ : All (λ i. IsRisable parent i (read_topic_lenient unmarshal e₁ a i)) ids =
          All-then (λ i. IsRisable parent i (read_topic_lenient unmarshal e a i))
            (λ i. IsRisable parent i (read_topic_lenient unmarshal e₁ a i)) ids
            (λ i h.
              subst (IsRisable parent i) (sym (law a i))
                (still (a == a && id == i) i (read_topic_lenient unmarshal e a i) h))
            s.1 in
        let (e₂, eq₂, ready₂, calm₂, law₂) = restore_sunk_topics_l2_lem e₁ ids calm₁ ready₁ s₁ in
        (
          e₂,
          rw eq₁ eq₂,
          ready₂,
          calm₂,
          λ b j.
              law₂ b j
              ∙ ap (λ x. if a == b && contains ids j then risen parent x else x) (law b j)
              ∙ twice_risen (read_topic_lenient unmarshal e b j) (a == b) (id == j)
                  (contains ids j),
        )
