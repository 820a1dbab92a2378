-- ===== src/Storage/Disk/Calm.antt =====
-- The engine's steps when every system call succeeds: the plan of failures is empty.
use mem_hop.Prelude.{
  ℕ, false, zero, suc, ◌-◌, ◌≡◌, refl, ap, List, [], ◌++◌, if◌then◌else◌, length, take, replicate,
}
use mem_hop.Errors.{ok, err, closed}
use mem_hop.Storage.Engine.{Engine, Act, unless_closed}
use mem_hop.Storage.Disk.{
  ended_by, plain, seek_end, append, overwrite, sync, system_call, stat, truncate, map_file,
  unmap_file, remap_file, write_header_at, truncate_tail,
}

-- The bytes behind a truncation to `n`.
abbrev pub cut : ℕ → List ℕ → List ℕ
cut n file = take n file ++ replicate (n - length file) 0

-- An open engine goes on behind the test for closed ones.
pub unless_open :
    {A : Type 0} (m : Act A) (e : Engine) → e.is_closed ≡ false → unless_closed m e ≡ m e
unless_open m e h = ap (λ b. if b then (err closed, e) else m e) h

module _ (e : Engine) (calm : e.plan ≡ []) where
  pub seek_end_calm : seek_end e ≡ (ok (length e.file), e)
  unfolding seek_end
  seek_end_calm = λ i. ended_by (calm i) (λ e. e) (λ _ e. e) (λ e. length e.file) e

  pub stat_calm : stat e ≡ (ok (length e.file), e)
  unfolding stat
  stat_calm = λ i. ended_by (calm i) (λ e. e) (λ _ e. e) (λ e. length e.file) e

  pub append_calm : (b : List ℕ) → append b e ≡ (ok tt, record e { file = e.file ++ b })
  unfolding append
  append_calm b = λ i.
      ended_by (calm i) (λ e. record e { file = e.file ++ b })
        (λ n e. record e { file = e.file ++ take n b }) (λ _. tt) e

  plain_calm : (f : Engine → Engine) → plain f e ≡ (ok tt, f e)
  plain_calm f = λ i. ended_by (calm i) f (λ _ e. e) (λ _. tt) e

  pub system_call_calm : system_call e ≡ (ok tt, e)
  unfolding system_call
  system_call_calm = plain_calm (λ e. e)

  pub sync_calm : sync e ≡ (ok tt, e)
  unfolding sync
  sync_calm = plain_calm (λ e. e)

  pub map_file_calm : (n : ℕ) → map_file n e ≡ (ok n, e)
  unfolding map_file
  map_file_calm zero = refl
  map_file_calm (suc n) = λ i. ended_by (calm i) (λ e. e) (λ _ e. e) (λ _. suc n) e

  pub unmap_file_calm : (n : ℕ) → unmap_file n e ≡ (ok tt, e)
  unfolding unmap_file
  unmap_file_calm zero = refl
  unmap_file_calm (suc n) = plain_calm (λ e. e)

  pub truncate_calm : (n : ℕ) → truncate n e ≡ (ok tt, record e { file = cut n e.file })
  unfolding truncate
  truncate_calm n =
      plain_calm (λ e. record e { file = take n e.file ++ replicate (n - length e.file) 0 })

  pub write_header_at_calm :
      (off : ℕ) (b : List ℕ)
      → write_header_at off b e ≡ (ok tt, record e { file = overwrite e.file off b })
  unfolding write_header_at
  write_header_at_calm off b = rw (plain_calm (λ e. e), calm)

  pub remap_file_calm : remap_file e ≡ (ok (length e.file), e)
  unfolding remap_file
  remap_file_calm = rw (stat_calm, map_file_calm (length e.file), unmap_file_calm e.mapped)

module _ (e : Engine) (calm : e.plan ≡ []) where
  pub truncate_tail_calm :
      (n : ℕ) → truncate_tail n e ≡ (ok tt, record e { file = cut n e.file; mapped = n })
  unfolding truncate_tail
  truncate_tail_calm n =
      let bare = record e { mapped = 0 } in
      let short = record bare { file = cut n e.file } in
      rw (
        unmap_file_calm e calm e.mapped,
        truncate_calm bare calm n,
        sync_calm short calm,
        map_file_calm short calm n,
      )
