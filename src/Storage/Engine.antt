-- ===== src/Storage/Engine.antt =====
-- internal/repo/core/engine.go: the state of StorageEngine and its accessors. The lock has no
-- counterpart: each function is one critical section.
use mem_hop.Prelude.{
  ℕ, ◌+◌, List, [], ◌∷◌, Bool, true, false, Option, none, some, ◌==◌, if◌then◌else◌, length, take,
}
use mem_hop.Prelude.Map.{Map, get, inner}
use mem_hop.Prelude.Sort.{sort}
use mem_hop.Errors.{Code, Result, ok, err, closed}
use mem_hop.Storage.Header.{FileHeader, Headers}
use mem_hop.Storage.Domains.{Index}

-- What a system call does: it succeeds, or it fails, a write after so many bytes reached the file.
pub data Outcome : Type 0 where
  succeeds : Outcome
  fails : ℕ → Outcome

-- A set of ids is a map to the one value of struct{}.
abbrev pub TypeIndex : Type 0
TypeIndex = Map (Map (Map (Unit {0})))

-- The mapping is MAP_SHARED and covers the first `mapped` bytes of the file, so its length is
-- all the state it has; 0 stands for nil. `plan` says how the coming system calls end: those past
-- its end succeed.
pub record Engine : Type 0 where
  pub file : List ℕ
  pub mapped : ℕ
  pub headers : Headers
  pub index : Index
  pub by_agent_type : TypeIndex
  pub next_offset : ℕ
  pub is_closed : Bool
  pub plan : List Outcome

abbrev pub mmap : Engine → List ℕ
mmap e = take e.mapped e.file

-- A method changes the engine and may fail; what it changed before failing stays changed.
abbrev pub Act : Type 0 → Type 0
Act A = Engine → Result A × Engine

abbrev pub follow : {A B : Type 0} → Result A → (A → Act B) → Act B
follow (ok a) f e = f a e
follow (err c) f e = (err c, e)

infixl 5 ◌>>=◌ ◌>>◌
abbrev pub ◌>>=◌ : {A B : Type 0} → Act A → (A → Act B) → Act B
◌>>=◌ m f e = let (r, e') = m e in follow r f e'

abbrev pub ◌>>◌ : {B : Type 0} → Act (Unit {0}) → Act B → Act B
m >> k = m >>= λ _. k

abbrev pub pure : {A : Type 0} → A → Act A
pure a e = (ok a, e)

abbrev pub fail : {A : Type 0} → Code → Act A
fail c e = (err c, e)

abbrev pub gets : {A : Type 0} → (Engine → A) → Act A
gets f e = (ok (f e), e)

abbrev pub modify : (Engine → Engine) → Act (Unit {0})
modify f e = (ok tt, f e)

-- `if err != nil { … }`: what is done on the failure path, before the error is returned.
abbrev pub recover : {A : Type 0} → Result A → (Code → Act A) → Act A
recover (ok a) h e = (ok a, e)
recover (err c) h e = h c e

abbrev pub on_error : {A : Type 0} → Act A → (Code → Act A) → Act A
on_error m h e = let (r, e') = m e in recover r h e'

-- The test that every exported method begins with.
abbrev pub unless_closed : {A : Type 0} → Act A → Act A
unless_closed m e = if e.is_closed then (err closed, e) else m e

abbrev pub keys {ℓ} : {V : Type ℓ} → Map V → List ℕ
keys [] = []
keys ((k, v) ∷ m) = k ∷ keys m

abbrev pub is_some {ℓ} : {A : Type ℓ} → Option A → Bool
is_some none = false
is_some (some a) = true

unfoldable pub contains : Engine → ℕ → ℕ → Bool
contains e agent_id id_hash =
    if e.is_closed then false else is_some (get (inner (get e.index agent_id)) id_hash)

unfoldable pub total_records : Index → ℕ
total_records [] = 0
total_records ((a, m) ∷ index) = length m + total_records index

unfoldable pub stats : Engine → ℕ × ℕ
stats e = if e.is_closed then (0, 0) else (length (mmap e), total_records e.index)

unfoldable pub index_by_type : Engine → ℕ → ℕ → List ℕ
index_by_type e agent_id record_type =
    if e.is_closed
    then []
    else sort (keys (inner (get (inner (get e.by_agent_type agent_id)) record_type)))

unfoldable pub iter_agents : Engine → List ℕ
iter_agents e = if e.is_closed then [] else sort (keys e.index)

unfoldable pub active_header_ref : Engine → FileHeader
active_header_ref e = if e.headers.active == 0 then e.headers.header_a else e.headers.header_b
