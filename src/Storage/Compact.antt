-- ===== src/Storage/Compact.antt =====
-- reclaim.go: Compact, which copies the live records of an engine into a new file. The Act here is over the
-- engine of the new file; the source is only read.
pub mod Live
pub mod Copy
pub mod Damage
use mem_hop.Prelude.{ℕ, List, [], ◌∷◌, ◌++◌, true, false, ◌==◌, length}
use mem_hop.Prelude.Map.{Map}
use mem_hop.Errors.{Code, ok, err, corruption, crc_mismatch}
use mem_hop.Storage.Domains.{Index}
use mem_hop.Storage.Frame.{Frame, record_data}
use mem_hop.Storage.Engine.{Engine, Act, ◌>>=◌, ◌>>◌, pure, fail, mmap}
use mem_hop.Storage.Write.{RecordEntry, write_record_batch}
use mem_hop.Storage.Tail.{checkpoint}
use mem_hop.Storage.Lifecycle.{create, both, shutdown_handles}

-- A frame that will not read is damage, whatever the read called it.
abbrev pub damage : Code → Code
damage crc_mismatch = crc_mismatch
damage _ = corruption

abbrev pub copied : ℕ → ℕ → Frame → RecordEntry
copied agent_id id fr = record {
  agent_id = agent_id;
  record_type = fr.record_type;
  id_hash = id;
  payload = fr.payload;
}

abbrev pub flush : List RecordEntry → Act (Unit {0})
flush [] = pure tt
flush (r ∷ rs) = write_record_batch (r ∷ rs) >>= λ _. pure tt

-- The loop over one domain: 256 records to a batch.
unfoldable pub copy_domain : List ℕ → ℕ → List RecordEntry → Map ℕ → Act (Unit {0})
copy_domain mm agent_id batch [] = flush batch
copy_domain mm agent_id batch ((id, offset) ∷ m) = elim (record_data mm offset) [
  | err c ↦ fail (damage c)
  | ok fr ↦
      let full = batch ++ (copied agent_id id fr ∷ []) in
      elim (length full == 256) [
        | true ↦ flush full >> copy_domain mm agent_id [] m
        | false ↦ copy_domain mm agent_id full m
      ]
]

unfoldable pub copy_domains : List ℕ → Index → Act (Unit {0})
copy_domains mm [] = pure tt
copy_domains mm ((agent_id, m) ∷ index) = copy_domain mm agent_id [] m >> copy_domains mm index

-- The handles of the new engine are shut down on every path behind Create.
unfoldable pub compact : Engine → Act (Unit {0})
compact source =
    create >> both (copy_domains (mmap source) source.index >> checkpoint) shutdown_handles
