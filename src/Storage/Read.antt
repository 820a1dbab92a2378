-- ===== src/Storage/Read.antt =====
-- engine_read.go: one record by its id.
use mem_hop.Prelude.{ℕ, List, Option, none, some, if◌then◌else◌}
use mem_hop.Prelude.Map.{inner, get}
use mem_hop.Errors.{Result, ok, err, closed, not_found, eof, corruption}
use mem_hop.Storage.Frame.{Frame, record_data}
use mem_hop.Storage.Engine.{Engine, mmap}

-- io.EOF means nothing to a caller that named an id.
abbrev pub read_result : Result Frame → Result (ℕ × List ℕ)
read_result (ok fr) = ok (fr.record_type, fr.payload)
read_result (err eof) = err corruption
read_result (err c) = err c

abbrev pub read_at : List ℕ → Option ℕ → Result (ℕ × List ℕ)
read_at mm none = err not_found
read_at mm (some offset) = read_result (record_data mm offset)

unfoldable pub read_record : Engine → ℕ → ℕ → Result (ℕ × List ℕ)
read_record e agent_id id_hash =
    if e.is_closed
    then err closed
    else read_at (mmap e) (get (inner (get e.index agent_id)) id_hash)
