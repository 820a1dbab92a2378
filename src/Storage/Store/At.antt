-- ===== src/Storage/Store/At.antt =====
-- An open engine that holds a log, with a snapshot behind it or without, and the trim of the snapshot.
use mem_hop.Prelude.{
  ℕ, ◌+◌, ◌<◌, ◌≤◌, ◌^◌, ◌≡◌, refl, ap, ◌∙◌, List, [], ◌∷◌, ◌++◌, Bool, true, false, length, arith,
  ◌⊎◌, inl, inr, length-append,
}
use mem_hop.Errors.{ok}
use mem_hop.Storage.Frame.{Frame}
use mem_hop.Storage.Frame.RoundTrip.{encode, length-encode_record}
use mem_hop.Storage.Engine.{Engine}
use mem_hop.Storage.Tail.{trim_tail_snapshot}
use mem_hop.Storage.Recovery.Log.{log_bytes}
use mem_hop.Storage.Store.Bare.{IsBare, trim_tail_snapshot_bare, log_bytes-append}
use mem_hop.Storage.Store.Sealed.{
  IsKept, IsSealed, IsBare-IsKept, length-IsKept, length-IsBare, trim_tail_snapshot-IsBare,
}

-- With `sealed` false there is no snapshot; otherwise there may be one.
abbrev pub At : Engine → List Frame → ℕ → Bool → Type 0
At e log c false = IsBare e log c
At e log c true = IsBare e log c ⊎ (IsSealed e log c × (e.is_closed ≡ false))

pub At-true :
    (e : Engine) (log : List Frame) (c : ℕ) (sealed : Bool) → At e log c sealed → At e log c true
At-true e log c false a = inl a
At-true e log c true a = a

-- The engine and what stands behind its log.
pub At-IsKept :
    (e : Engine) (log : List Frame) (c : ℕ)
    → At e log c true
    → (tail : List ℕ) × IsKept e log tail c × (e.is_closed ≡ false)
At-IsKept e log c (inl b) = ([], IsBare-IsKept e log c b, b.opened)
At-IsKept e log c (inr (s, opened)) = (_, s.kept, opened)

-- The trim in front of a frame.
module _ (e : Engine) (log : List Frame) (c : ℕ) (room : c + 1 < 256 ^ 8) where
  pub trimmed :
      At e log c true
      → (m : Engine) × (c' : ℕ) × (trim_tail_snapshot e ≡ (ok tt, m))
        × IsBare m log c'
        × (c' ≤ c + 1)
        × (m.index ≡ e.index)
        × (length m.file ≤ length e.file)
  trimmed (inl b) = (e, c, trim_tail_snapshot_bare e b.settled, b, omega arith, refl, omega arith)
  trimmed (inr (s, opened)) =
      let (m, eq, b, same) = trim_tail_snapshot-IsBare e log c opened s room in
      (
        m,
        c + 1,
        eq,
        b,
        omega arith,
        same,
        omega (arith, length-IsBare m log (c + 1) b, length-IsKept e log (s.older ++ _) c s.kept),
      )

pub log_bytes-grown :
    (log : List Frame) (fr : Frame)
    → length (log_bytes (log ++ (fr ∷ []))) ≡ length (log_bytes log) + 26 + length fr.payload
log_bytes-grown log fr =
    ap length (log_bytes-append log fr)
    ∙ omega (
      arith,
      length-append (log_bytes log) (encode fr),
      length-encode_record fr.agent_id fr.record_type fr.flags fr.id_hash fr.payload,
    )

pub IsBare-At :
    (e : Engine) (log : List Frame) (c : ℕ) (sealed : Bool) → IsBare e log c → At e log c sealed
IsBare-At e log c false b = b
IsBare-At e log c true b = inl b
