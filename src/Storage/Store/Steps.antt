-- ===== src/Storage/Store/Steps.antt =====
-- One event of a history.
use mem_hop.Prelude.{
  ℕ, ◌+◌, ◌*◌, ◌<◌, ◌≤◌, ◌^◌, ◌≡◌, refl, ap, ◌∙◌, List, [], ◌∷◌, ◌++◌, Bool, true, false,
  if◌then◌else◌, length, arith, inl, inr, length-append,
}
use mem_hop.Errors.{ok}
use mem_hop.Storage.Frame.{Frame}
use mem_hop.Storage.Frame.RoundTrip.{IsStorable}
use mem_hop.Storage.Engine.{Engine}
use mem_hop.Storage.Lifecycle.{blank, open_engine}
use mem_hop.Storage.View.{View, nothing, view, view-append}
use mem_hop.Storage.Store.{frame_of}
use mem_hop.Storage.Store.Bare.{IsBare, write_record-trimmed}
use mem_hop.Storage.Store.Reopen.{open_engine-crashed, no_more}
use mem_hop.Storage.Store.Sealed.{length-IsBare}
use mem_hop.Storage.Store.Checkpoint.{checkpoint-IsSealed}
use mem_hop.Storage.Store.Restart.{open_engine-IsSealed}
use mem_hop.Storage.Store.Close.{close-open_engine}
use mem_hop.Storage.Store.Event.{
  Event, write, delete, save, restart, crash, perform, effect, sealed_after, Fits, cost,
}
use mem_hop.Storage.Store.At.{At, At-true, At-IsKept, trimmed, log_bytes-grown}
use mem_hop.Storage.Store.Forget.{delete_record-At}

-- What one event leaves.
abbrev pub Next : ℕ → Engine → List Frame → ℕ → Event → Bool → Type 0
Next n e log c x sealed =
    (e' : Engine) × (log' : List Frame) × (c' : ℕ) × (perform x e ≡ (ok tt, e'))
    × At e' log' c' (sealed_after x sealed)
    × (c' ≤ c + 1)
    × (length log' ≤ length log + 1)
    × (length e'.file ≤ length e.file + cost n x)
    × ((b j : ℕ) → view log' nothing b j ≡ effect x (view log nothing) b j)

write_step :
    (n : ℕ) (e : Engine) (log : List Frame) (c : ℕ) (sealed : Bool) (a t i : ℕ) (d : List ℕ)
    → At e log c true
    → c + 1 < 256 ^ 8
    → IsStorable (frame_of a t i d)
    → Next n e log c (write a t i d) sealed
write_step n e log c sealed a t i d at room s =
    let (_, k, opened) = At-IsKept e log c at in
    let (m, c', trim, b, le, same, short) = trimmed e log c room at in
    let fr = frame_of a t i d in
    let (off, e', eq, b') = write_record-trimmed e m log c' a t i d opened trim b s in
    (
      e',
      log ++ (fr ∷ []),
      c',
      rw eq refl,
      b',
      le,
      omega (arith, length-append log (fr ∷ [])),
      omega (
        arith,
        length-IsBare e' (log ++ (fr ∷ [])) c' b',
        log_bytes-grown log fr,
        length-IsBare m log c' b,
        short,
      ),
      λ b j. ap (λ (v : View). v b j) (view-append log fr nothing),
    )

delete_step :
    (n : ℕ) (e : Engine) (log : List Frame) (c : ℕ) (sealed : Bool) (a i : ℕ)
    → At e log c sealed
    → c + 1 < 256 ^ 8
    → a < 256 ^ 8
    → i < 256 ^ 8
    → Next n e log c (delete a i) sealed
delete_step n e log c sealed a i at room la li =
    let (done, e', log', c', eq, told, at', le, few, size, law) =
      delete_record-At e log c sealed a i at room la li in
    (e', log', c', rw eq refl, at', le, few, size, law)

save_step :
    (n : ℕ) (e : Engine) (log : List Frame) (c : ℕ) (sealed : Bool)
    → At e log c true
    → c + 1 < 256 ^ 8
    → length log ≤ n
    → length e.file + (13 + 28 * n) < 256 ^ 4
    → Next n e log c save sealed
save_step n e log c sealed at room few small =
    let (tail, k, opened) = At-IsKept e log c at in
    let (e', eq, s, opened', short) =
      checkpoint-IsSealed e log tail c k opened room (omega (arith, few, small)) in
    (
      e',
      log,
      c + 1,
      eq,
      inr (s, opened'),
      omega arith,
      omega arith,
      omega (arith, short, few),
      λ b j. refl,
    )

restart_step :
    (n : ℕ) (e : Engine) (log : List Frame) (c : ℕ) (sealed : Bool)
    → At e log c true
    → c + 1 < 256 ^ 8
    → length log ≤ n
    → length e.file + (13 + 28 * n) < 256 ^ 4
    → Next n e log c restart sealed
restart_step n e log c sealed at room few small =
    let (tail, k, opened) = At-IsKept e log c at in
    let (e₁, e₂, eq₁, eq₂, s, opened', short) =
      close-open_engine e log tail c k opened room (omega (arith, few, small)) in
    (
      e₂,
      log,
      c + 1,
      rw eq₁ eq₂,
      inr (s, opened'),
      omega arith,
      omega arith,
      omega (arith, short, few),
      λ b j. refl,
    )

crash_bare :
    (n : ℕ) (e : Engine) (log : List Frame) (c : ℕ) (torn : List ℕ)
    → IsBare e log c
    → length torn < 26
    → Next n e log c (crash torn) false
crash_bare n e log c torn b short =
    let (e', eq, b') = open_engine-crashed e log c b torn short in
    (
      e',
      log,
      c,
      eq,
      b',
      omega arith,
      omega arith,
      omega (arith, length-IsBare e' log c b', length-IsBare e log c b),
      λ b j. refl,
    )

crash_step :
    (n : ℕ) (e : Engine) (log : List Frame) (c : ℕ) (sealed : Bool) (torn : List ℕ)
    → At e log c sealed
    → length torn < (if sealed then 1 else 26)
    → Next n e log c (crash torn) sealed
crash_step n e log c false torn b short = crash_bare n e log c torn b short
crash_step n e log c true torn (inl b) short =
    let (e', log', c', eq, b', le, few, size, law) =
      crash_bare n e log c torn b (omega (arith, short)) in
    (e', log', c', eq, inl b', le, few, size, law)
crash_step n e log c true torn (inr (s, opened)) short =
    let (e', eq, s', opened', same) = open_engine-IsSealed e log c s in
    (
      e',
      log,
      c,
      ap (λ l. open_engine (blank l [])) (no_more e.file torn (omega (arith, short))) ∙ eq,
      inr (s', opened'),
      omega arith,
      omega arith,
      omega (arith, ap length same),
      λ b j. refl,
    )

-- Every event that fits succeeds and does to the store what it means.
pub step :
    (n : ℕ) (x : Event) (e : Engine) (log : List Frame) (c : ℕ) (sealed : Bool)
    → At e log c sealed
    → Fits x sealed
    → c + 1 < 256 ^ 8
    → length log ≤ n
    → length e.file + cost n x < 256 ^ 4
    → Next n e log c x sealed
step n (write a t i d) e log c sealed at s room few small =
    write_step n e log c sealed a t i d (At-true e log c sealed at) room s
step n (delete a i) e log c sealed at s room few small =
    delete_step n e log c sealed a i at room s.0 s.1
step n save e log c sealed at s room few small =
    save_step n e log c sealed (At-true e log c sealed at) room few small
step n restart e log c sealed at s room few small =
    restart_step n e log c sealed (At-true e log c sealed at) room few small
step n (crash torn) e log c sealed at s room few small = crash_step n e log c sealed torn at s
