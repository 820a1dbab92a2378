-- ===== src/Storage/Store/Batch/Enter.antt =====
-- engine_write.go: the frames of a batch are entered into the index, one by one.
use mem_hop.Prelude.{
  ℕ, ◌+◌, ◌≡◌, ◌≤◌, refl, sym, ap, ◌∙◌, List, [], ◌∷◌, Bool, ◌==◌, ◌&&◌, if◌then◌else◌, length,
  arith, true, false, Option, some, none, subst, Bool-cases, inl, inr,
}
use mem_hop.Errors.{Result, ok}
use mem_hop.Storage.Domains.{offset_of, offset_of-put}
use mem_hop.Storage.Frame.{record_data}
use mem_hop.Storage.Engine.{Engine}
use mem_hop.Storage.Read.{read_record, read_result, read_at}
use mem_hop.Storage.Write.{RecordEntry, index_one, update_index_after_write}
use mem_hop.Storage.Ready.{IsReady, Holds}
use mem_hop.Storage.Store.{read_record-at}
use mem_hop.Storage.Store.Batch.{frame_of_entry, Placed, latest, over}

-- A frame that stands in the record area is entered into the index.
module _ (e : Engine) (r : RecordEntry) (o : ℕ) (ready : IsReady e)
    (clean : record_data e.file o ≡ ok (frame_of_entry r)) (low : 8192 ≤ o)
    (high : o + 26 + length r.payload ≤ e.next_offset) where
  abbrev entered : Engine
  entered = index_one r o e

  entered_index :
      (b j : ℕ)
      → offset_of entered.index b j
        ≡ (if r.agent_id == b && r.id_hash == j then some o else offset_of e.index b j)
  unfolding index_one
  entered_index b j = offset_of-put e.index r.agent_id r.id_hash o b j

  entered_file : entered.file ≡ e.file
  unfolding index_one
  entered_file = refl

  entered_next : entered.next_offset ≡ e.next_offset
  unfolding index_one
  entered_next = refl

  entered_plan : entered.plan ≡ e.plan
  unfolding index_one
  entered_plan = refl

  entered-Holds : (b j off : ℕ) → offset_of entered.index b j ≡ some off → Holds entered b j off
  unfolding index_one
  entered-Holds b j off h = elim (Bool-cases (r.agent_id == b && r.id_hash == j)) [
    | inl same ↦
        let at : o ≡ off = ground (arith, entered_index b j, same, h) in
        (
          frame_of_entry r,
          rw (← at) clean,
          ground (arith, same),
          ground (arith, same),
          omega (arith, at),
          omega (arith, at),
        )
    | inr other ↦ ready.live b j off (ground (arith, entered_index b j, other, h))
  ]

  entered-IsReady : IsReady entered
  unfolding index_one
  entered-IsReady = record {
    opened = ready.opened;
    whole = ready.whole;
    area = ready.area;
    room = ready.room;
    live = entered-Holds;
  }

  entered_read :
      (b j : ℕ)
      → read_record entered b j ≡ (
          if r.agent_id == b && r.id_hash == j
          then ok (r.record_type, r.payload)
          else read_record e b j)
  entered_read b j = elim (Bool-cases (r.agent_id == b && r.id_hash == j)) [
    | inl same ↦ rw same (
        read_record-at entered b j (some o) entered-IsReady (entered_index b j ∙ rw same refl)
        ∙ ap (λ f. read_at f (some o)) entered_file
        ∙ ap read_result clean)
    | inr other ↦ rw other (
        read_record-at entered b j (offset_of e.index b j) entered-IsReady
          (entered_index b j ∙ rw other refl)
        ∙ ap (λ f. read_at f (offset_of e.index b j)) entered_file
        ∙ sym (read_record-at e b j (offset_of e.index b j) ready refl))
  ]

over_latest :
    (later : Option (ℕ × List ℕ)) (same : Bool) (v : ℕ × List ℕ) (old : Result (ℕ × List ℕ))
    → over later (if same then ok v else old)
      ≡ over (elim later [ some w ↦ some w | none ↦ if same then some v else none ]) old
over_latest (some w) same v old = refl
over_latest none true v old = refl
over_latest none false v old = refl

-- Every record of the batch is entered.
pub update_index-IsReady :
    (rs : List RecordEntry) (os : List ℕ) (e : Engine)
    → IsReady e
    → length rs ≡ length os
    → Placed e.file e.next_offset rs os
    → IsReady (update_index_after_write rs os e)
      × ((update_index_after_write rs os e).plan ≡ e.plan)
      × ((b j : ℕ)
          → read_record (update_index_after_write rs os e) b j
            ≡ over (latest rs b j) (read_record e b j))
unfolding update_index_after_write Placed
update_index-IsReady [] os e ready size p = (ready, refl, λ b j. refl)
update_index-IsReady (r ∷ rs) [] e ready size p = absurd (omega arith)
update_index-IsReady (r ∷ rs) (o ∷ os) e ready size (clean, low, high, rest) =
    let e' = entered e r o ready clean low high in
    let rest' : Placed e'.file e'.next_offset rs os =
      subst (λ f. Placed f e'.next_offset rs os) (sym (entered_file e r o ready clean low high))
        (subst (λ n. Placed e.file n rs os) (sym (entered_next e r o ready clean low high)) rest) in
    let (ready', same, law) =
      update_index-IsReady rs os e' (entered-IsReady e r o ready clean low high) (omega arith)
        rest' in
    (
      ready',
      same ∙ entered_plan e r o ready clean low high,
      λ b j.
          law b j
          ∙ ap (over (latest rs b j)) (entered_read e r o ready clean low high b j)
          ∙ over_latest (latest rs b j) (r.agent_id == b && r.id_hash == j)
              (r.record_type, r.payload) (read_record e b j),
    )
