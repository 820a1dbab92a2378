-- ===== src/Storage/Store/Event.antt =====
-- What happens to a database, and what it means for a store of records that knows nothing of files,
-- frames and offsets.
use mem_hop.Prelude.{
  ℕ, ◌+◌, ◌*◌, ◌<◌, ◌^◌, ◌≡◌, List, [], ◌∷◌, ◌++◌, Bool, true, false, none, some, ◌&&◌, ◌==◌,
  if◌then◌else◌, length, ap,
}
use mem_hop.Storage.Frame.RoundTrip.{IsStorable}
use mem_hop.Storage.Engine.{Act, ◌>>◌, ◌>>=◌, pure}
use mem_hop.Storage.Write.{write_record}
use mem_hop.Storage.Delete.{delete_record}
use mem_hop.Storage.Tail.{checkpoint}
use mem_hop.Storage.Lifecycle.{blank, open_engine, close}
use mem_hop.Storage.View.{View}
use mem_hop.Storage.Store.{frame_of}

-- A restart is a Close and an Open. A crash leaves some bytes behind the file, and the file is opened.
pub data Event : Type 0 where
  write : (agent_id record_type id_hash : ℕ) (payload : List ℕ) → Event
  delete : (agent_id id_hash : ℕ) → Event
  save : Event
  restart : Event
  crash : (torn : List ℕ) → Event

abbrev pub perform : Event → Act (Unit {0})
perform (write a t i d) = write_record a t i d >>= λ off. pure tt
perform (delete a i) = delete_record a i >>= λ done. pure tt
perform save = checkpoint
perform restart = close >> λ e. open_engine (blank e.file [])
perform (crash torn) = λ e. open_engine (blank (e.file ++ torn) [])

abbrev pub run : List Event → Act (Unit {0})
run [] = pure tt
run (x ∷ events) = perform x >> run events

-- Only a write and a deletion change the store.
abbrev pub effect : Event → View → View
effect (write a t i d) v = λ b j. if a == b && i == j then some (t, d) else v b j
effect (delete a i) v = λ b j. if a == b && i == j then none else v b j
effect save v = v
effect restart v = v
effect (crash torn) v = v

abbrev pub store_of : List Event → View → View
store_of [] v = v
store_of (x ∷ events) v = store_of events (effect x v)

-- Whether a snapshot may stand behind the log after an event.
abbrev pub sealed_after : Event → Bool → Bool
sealed_after (write a t i d) sealed = false
sealed_after (delete a i) sealed = sealed
sealed_after save sealed = true
sealed_after restart sealed = true
sealed_after (crash torn) sealed = sealed

-- Fields in their machine widths, and fewer torn bytes than a frame's head, none behind a snapshot.
abbrev pub Fits : Event → Bool → Type 0
Fits (write a t i d) sealed = IsStorable (frame_of a t i d)
Fits (delete a i) sealed = (a < 256 ^ 8) × (i < 256 ^ 8)
Fits save sealed = Unit
Fits restart sealed = Unit
Fits (crash torn) sealed = length torn < (if sealed then 1 else 26)

abbrev pub AllFit : List Event → Bool → Type 0
AllFit [] sealed = Unit
AllFit (x ∷ events) sealed = Fits x sealed × AllFit events (sealed_after x sealed)

-- How many bytes an event adds at most, in a history of `n` events.
abbrev pub cost : ℕ → Event → ℕ
cost n (write a t i d) = 26 + length d
cost n (delete a i) = 26
cost n save = 13 + 28 * n
cost n restart = 13 + 28 * n
cost n (crash torn) = 0

abbrev pub costs : ℕ → List Event → ℕ
costs n [] = 0
costs n (x ∷ events) = cost n x + costs n events

pub effect_ext :
    (x : Event) (v w : View)
    → ((a i : ℕ) → v a i ≡ w a i)
    → (a i : ℕ) → effect x v a i ≡ effect x w a i
effect_ext (write a t i d) v w h =
    λ b j. ap (λ o. if a == b && i == j then some (t, d) else o) (h b j)
effect_ext (delete a i) v w h = λ b j. ap (λ o. if a == b && i == j then none else o) (h b j)
effect_ext save v w h = h
effect_ext restart v w h = h
effect_ext (crash torn) v w h = h

pub store_of_ext :
    (events : List Event) (v w : View)
    → ((a i : ℕ) → v a i ≡ w a i)
    → (a i : ℕ) → store_of events v a i ≡ store_of events w a i
store_of_ext [] v w h = h
store_of_ext (x ∷ events) v w h = store_of_ext events (effect x v) (effect x w) (effect_ext x v w h)
