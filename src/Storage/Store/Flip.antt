-- ===== src/Storage/Store/Flip.antt =====
-- The header flip: the slot that is not active gets a header with the next commit id, and that header is
-- the active one from then on, also when the file is read again.
use mem_hop.Prelude.{
  ℕ, ◌+◌, ◌≤◌, ◌≡◌, refl, sym, ap, ◌∙◌, List, ◌++◌, ◌==◌, leb, if◌then◌else◌, length, drop, arith,
  append_assoc, take-append, drop-append, drop-drop, Bool-cases, inl, inr,
}
use mem_hop.Storage.Frame.{Frame}
use mem_hop.Storage.Header.{FileHeader, Headers, header_size, to_bytes}
use mem_hop.Storage.Header.Select.{IsWritable, length-to_bytes}
use mem_hop.Storage.Disk.{overwrite}
use mem_hop.Storage.Recovery.Log.{log_bytes}
use mem_hop.Storage.Ready.{switched}
use mem_hop.Storage.Store.Bare.{file_of, active_of, IsCommitted}

-- Two headers that read back, with commit ids up to `commits`.
pub record IsPaired (hs : Headers) (commits : ℕ) : Type 0 where
  pub header_a : IsWritable hs.header_a
  pub header_b : IsWritable hs.header_b
  pub chosen : hs.active ≡ (if leb hs.header_b.commit_id hs.header_a.commit_id then 0 else 1)
  pub committed : IsCommitted hs commits

abbrev pub slot_of : Headers → ℕ
slot_of hs = if hs.active == 1 then 0 else header_size

pub active_commits : (hs : Headers) (c : ℕ) → IsPaired hs c → (active_of hs).commit_id ≤ c
active_commits hs c p = elim (Bool-cases (hs.active == 0)) [
  | inl first ↦ rw first p.committed.0
  | inr second ↦ rw second p.committed.1
]

module _ (hs : Headers) (h : FileHeader) (c : ℕ) (p : IsPaired hs c) (w : IsWritable h)
    (next : h.commit_id ≡ (active_of hs).commit_id + 1) where
  pub switched-IsPaired : IsPaired (switched hs h) (c + 1)
  switched-IsPaired = elim (Bool-cases (hs.active == 1)) [
    | inl second ↦ rw second (record {
      header_a = w;
      header_b = p.header_b;
      chosen = ground (arith, next, second, p.chosen);
      committed = (omega (arith, next, active_commits hs c p), omega (arith, p.committed.1));
    })
    | inr first ↦ rw first (record {
      header_a = p.header_a;
      header_b = w;
      chosen = ground (arith, next, first, p.chosen);
      committed = (omega (arith, p.committed.0), omega (arith, next, active_commits hs c p));
    })
  ]

pub active_of-switched : (hs : Headers) (h : FileHeader) → active_of (switched hs h) ≡ h
active_of-switched hs h = elim (Bool-cases (hs.active == 1)) [
  | inl second ↦ rw second refl
  | inr first ↦ rw first refl
]

same_size : (a b : FileHeader) → length (to_bytes a) ≡ length (to_bytes b)
same_size a b = length-to_bytes a ∙ sym (length-to_bytes b)

overwrite_first : (a h rest : List ℕ) → length a ≡ length h → overwrite (a ++ rest) 0 h ≡ h ++ rest
overwrite_first a h rest same =
    ap (λ l. h ++ l) (drop-append (0 + length h) a rest (omega (arith, same)))

overwrite_second :
    (a b h rest : List ℕ) (k : ℕ)
    → length a ≡ k
    → length b ≡ length h
    → overwrite (a ++ (b ++ rest)) k h ≡ a ++ (h ++ rest)
overwrite_second a b h rest k la same = rw (take-append k a (b ++ rest) la) (
    ap (λ l. a ++ (h ++ l))
      (sym (drop-drop (length h) k (a ++ (b ++ rest)))
        ∙ ap (drop (length h)) (drop-append k a (b ++ rest) la)
        ∙ drop-append (length h) b rest same))

-- The bytes of the new header go to the slot that was not active.
pub overwrite_slot :
    (hs : Headers) (h : FileHeader) (log : List Frame) (tail : List ℕ)
    → overwrite (file_of hs log ++ tail) (slot_of hs) (to_bytes h)
      ≡ file_of (switched hs h) log ++ tail
overwrite_slot hs h log tail = elim (Bool-cases (hs.active == 1)) [
  | inl second ↦ rw second (
      ap (λ l. overwrite l 0 (to_bytes h))
        (append_assoc (to_bytes hs.header_a) (to_bytes hs.header_b ++ log_bytes log) tail)
      ∙ overwrite_first (to_bytes hs.header_a) (to_bytes h)
          ((to_bytes hs.header_b ++ log_bytes log) ++ tail) (same_size hs.header_a h)
      ∙ sym (append_assoc (to_bytes h) (to_bytes hs.header_b ++ log_bytes log) tail))
  | inr first ↦ rw first (
      ap (λ l. overwrite l 4096 (to_bytes h)) (simp append_assoc)
      ∙ overwrite_second (to_bytes hs.header_a) (to_bytes hs.header_b) (to_bytes h)
          (log_bytes log ++ tail) 4096 (length-to_bytes hs.header_a) (same_size hs.header_b h)
      ∙ simp append_assoc)
]
