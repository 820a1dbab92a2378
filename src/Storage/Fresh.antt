-- ===== src/Storage/Fresh.antt =====
-- Create, when no system call fails: whatever the file held, it is cut to two headers.
use mem_hop.Prelude.{
  ℕ, ◌+◌, ◌-◌, ◌≡◌, refl, ap, List, [], ◌++◌, arith, length, take, drop, replicate, length-append,
  length-take, length-replicate, length-drop, take-append, drop-all, ◌≤◌,
}
use mem_hop.Prelude.Map.{get}
use mem_hop.Errors.{Result, ok}
use mem_hop.Storage.Header.{new_file_header, data_start, header_size, to_bytes}
use mem_hop.Storage.Header.Select.{length-to_bytes}
use mem_hop.Storage.Engine.{Engine}
use mem_hop.Storage.Disk.{overwrite}
use mem_hop.Storage.Disk.Calm.{
  cut, system_call_calm, truncate_calm, write_header_at_calm, map_file_calm, sync_calm,
}
use mem_hop.Storage.Lifecycle.{blank, create}
use mem_hop.Storage.Ready.{IsReady}

abbrev pub first_header : List ℕ
first_header = to_bytes new_file_header

-- The file of a new database.
abbrev pub new_file : List ℕ
new_file = first_header ++ (first_header ++ [])

length-cut : (n : ℕ) (f : List ℕ) → length (cut n f) ≡ n
length-cut n f = omega (
  arith,
  length-append (take n f) (replicate (n - length f) 0),
  length-take n f,
  length-replicate {A = ℕ} (n - length f) 0,
)

-- Two writes of the same size, one behind the other, fill a file of twice that size.
overwrite_twice :
    (f h : List ℕ) (k : ℕ)
    → length h ≡ k
    → length f ≡ k + k
    → overwrite (overwrite f 0 h) k h ≡ h ++ (h ++ [])
overwrite_twice f h k lh lf =
    let rest = drop (0 + length h) f in
    let size : length (h ++ rest) ≤ k + length h =
      omega (arith, length-append h rest, length-drop (0 + length h) f) in
    rw (take-append k h rest lh, drop-all (k + length h) (h ++ rest) size)

pub length-new_file : length new_file ≡ 8192
length-new_file = omega (
  arith,
  length-append first_header (first_header ++ []),
  length-append first_header [],
  length-to_bytes new_file_header,
)

-- The engine that Create leaves.
abbrev pub created : Engine
created = record (blank [] []) { file = new_file; mapped = 8192 }

-- Create makes every file into the two headers of an empty database, with nothing in the index.
pub create_lem : (file : List ℕ) → create (blank file []) ≡ (ok tt, created)
unfolding create
create_lem file =
    let e = blank file [] in
    let short = record e { file = cut data_start file } in
    let one = record short { file = overwrite short.file 0 first_header } in
    let two = record one { file = overwrite one.file header_size first_header } in
    rw
      (
        system_call_calm e refl,
        system_call_calm e refl,
        truncate_calm e refl data_start,
        write_header_at_calm short refl 0 first_header,
        write_header_at_calm one refl header_size first_header,
        map_file_calm two refl data_start,
        sync_calm two refl,
      )
      (ap {B = Result (Unit {0}) × Engine} (λ (f : List ℕ). (ok tt, record created { file = f }))
        (overwrite_twice short.file first_header header_size (length-to_bytes new_file_header)
          (length-cut data_start file)))

pub created-IsReady : IsReady created
unfolding get
created-IsReady = record {
  opened = refl;
  whole = omega (arith, length-new_file);
  area = omega arith;
  room = omega (arith, length-new_file);
  live = λ a id off h. absurd (cc h);
}
