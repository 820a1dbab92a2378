-- ===== src/Storage/Snapshot.antt =====
-- internal/repo/core/snapshot.go and the blob length of reclaim.go: the per-agent record index as
-- one blob. An index is a Go map of Go maps, agent id → id hash → offset.
pub mod Sections
pub mod RoundTrip
pub mod Size
use mem_hop.Prelude.{
  ℕ, zero, suc, ◌+◌, ◌-◌, ◌*◌, List, [], ◌∷◌, ◌++◌, Bool, true, false, ◌&&◌, ◌||◌, not, ltb, leb,
  ◌==◌, if◌then◌else◌, take, drop, length,
}
use mem_hop.Prelude.Bytes.{put_uint, uint}
use mem_hop.Prelude.Map.{Map, put}
use mem_hop.Errors.{Result, ok, err, corruption, crc_mismatch, refuse_if, ◌>>=◌, ◌>>◌}
use mem_hop.Storage.Domains.{Index}
use mem_hop.Storage.Crc.{update}
use mem_hop.Storage.Frame.{slice, byte_at}

abbrev pub snapshot_magic : ℕ
snapshot_magic = 0x534E4150

abbrev pub snapshot_version : ℕ
snapshot_version = 3

abbrev pub entries_bytes : Map ℕ → List ℕ
entries_bytes [] = []
entries_bytes ((id, off) ∷ m) = put_uint 8 id ++ (put_uint 8 off ++ entries_bytes m)

-- A domain without records is left out.
abbrev pub live_domains : Index → Index
live_domains [] = []
live_domains ((a, []) ∷ index) = live_domains index
live_domains ((a, e ∷ m) ∷ index) = (a, e ∷ m) ∷ live_domains index

abbrev pub sections_bytes : Index → List ℕ
sections_bytes [] = []
sections_bytes ((a, m) ∷ index) =
    put_uint 8 a ++ (put_uint 4 (length m) ++ (entries_bytes m ++ sections_bytes index))

-- Everything but the checksum behind it.
abbrev snapshot_body : Index → List ℕ
snapshot_body index =
    let agents = live_domains index in
    put_uint 4 snapshot_magic
    ++ (snapshot_version ∷ (put_uint 4 (length agents) ++ sections_bytes agents))

unfoldable pub build_snapshot : Index → List ℕ
build_snapshot index = snapshot_body index ++ put_uint 4 (update 0 (snapshot_body index))

unfoldable pub check_snapshot_envelope : List ℕ → Result (Unit {0})
check_snapshot_envelope raw = do
  refuse_if (ltb (length raw) 13) corruption
  refuse_if (not (update 0 (take (length raw - 4) raw) == uint (drop (length raw - 4) raw)))
      crc_mismatch
  refuse_if (not (uint (slice raw 0 4) == snapshot_magic)) corruption
  refuse_if (not (byte_at raw 4 == snapshot_version)) corruption
  ok tt

-- The loop of parseSnapshotAgent over the entries of one section.
unfoldable pub read_entries : List ℕ → ℕ → ℕ → Map ℕ → Map ℕ × ℕ
read_entries raw pos zero m = (m, pos)
read_entries raw pos (suc count) m =
    let id = uint (slice raw pos (pos + 8)) in
    let offset = uint (slice raw (pos + 8) (pos + 16)) in
    read_entries raw (pos + 16) count (put m id offset)

-- The agent, its entries and the position behind its section.
unfoldable pub parse_snapshot_agent : List ℕ → ℕ → Result (ℕ × Map ℕ × ℕ)
unfolding read_entries
parse_snapshot_agent raw pos = do
  refuse_if (ltb (length raw - 4) (pos + 12)) corruption
  let agent_id = uint (slice raw pos (pos + 8))
  let count = uint (slice raw (pos + 8) (pos + 12))
  refuse_if (ltb (length raw - 4) (pos + 12 + count * 16)) corruption
  let (m, next) = read_entries raw (pos + 12) count []
  ok (agent_id, m, next)

unfoldable pub parse_agents : List ℕ → ℕ → ℕ → Index → Result Index
parse_agents raw zero pos index = ok index
parse_agents raw (suc n) pos index = do
  (agent_id, m, next) ← parse_snapshot_agent raw pos
  parse_agents raw n next (put index agent_id m)

unfoldable pub parse_snapshot : List ℕ → Result Index
unfolding parse_agents
parse_snapshot raw = do check_snapshot_envelope raw; parse_agents raw (uint (slice raw 5 9)) 9 []

-- reclaim.go
unfoldable pub is_snapshot_blob_at : List ℕ → Bool
is_snapshot_blob_at raw = leb 13 (length raw) && uint (slice raw 0 4) == snapshot_magic

unfoldable pub skip_agents : List ℕ → ℕ → ℕ → Result ℕ
skip_agents raw zero pos = ok pos
skip_agents raw (suc n) pos = do
  (agent_id, m, next) ← parse_snapshot_agent raw pos
  skip_agents raw n next

unfoldable pub snapshot_blob_length : List ℕ → Result ℕ
unfolding skip_agents
snapshot_blob_length raw = do
  refuse_if (ltb (length raw) 13) corruption
  refuse_if
      (not (uint (slice raw 0 4) == snapshot_magic) || not (byte_at raw 4 == snapshot_version))
      corruption
  pos ← skip_agents raw (uint (slice raw 5 9)) 9
  refuse_if (ltb (length raw) (pos + 4)) corruption
  ok (pos + 4)
