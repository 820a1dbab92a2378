-- ===== src/Plan/Status.antt =====
-- internal/plan/status.go: the text that a host reads a node's status as.
use Prim.Native.String.{String}
use text.Mathlib.Text.{◌==◌ as str_eq}
use text.Mathlib.TextEquality.{eq_iff}
use mem_hop.Prelude.{ℕ, Bool, ◌||◌, if◌then◌else◌, ◌==◌, ◌≡◌, ◌≢◌, subst, false, ◌↔◌, refl, arith}
use mem_hop.Errors.{Result, ok, err, invalid_query, deserialization}
use mem_hop.Plan.{status_in_progress, status_done, status_failed}

abbrev pub plan_in_progress : String
plan_in_progress = "in_progress"

abbrev pub plan_done : String
plan_done = "done"

abbrev pub plan_failed : String
plan_failed = "failed"

-- The table is a Go map, read in any order: its names are distinct, so that every order finds the
-- same row.
unfoldable pub status_to_u8 : String → Result ℕ
status_to_u8 s =
    if str_eq s plan_in_progress
    then ok status_in_progress
    else if str_eq s plan_done
    then ok status_done
    else if str_eq s plan_failed
    then ok status_failed
    else err invalid_query

unfoldable pub status_to_string : ℕ → Result String
status_to_string u =
    if u == status_in_progress
    then ok plan_in_progress
    else if u == status_done
    then ok plan_done
    else if u == status_failed
    then ok plan_failed
    else err deserialization

abbrev pub is_terminal_status : ℕ → Bool
is_terminal_status u = (u == status_done) || (u == status_failed)

pub in_progress-done : plan_in_progress ≢ plan_done
in_progress-done e = cc (subst (λ t. str_eq t plan_done ≡ false) e refl)

in_progress-failed : plan_in_progress ≢ plan_failed
in_progress-failed e = cc (subst (λ t. str_eq t plan_failed ≡ false) e refl)

done-failed : plan_done ≢ plan_failed
done-failed e = cc (subst (λ t. str_eq t plan_failed ≡ false) e refl)

-- A stored status reads as a text exactly where that text resolves to it.
pub status_to_string-status_to_u8 :
    (u : ℕ) (s : String) → (status_to_string u ≡ ok s) ↔ (status_to_u8 s ≡ ok u)
unfolding status_to_string status_to_u8
status_to_string-status_to_u8 u s = ground (
  arith,
  eq_iff s plan_in_progress,
  eq_iff s plan_done,
  eq_iff s plan_failed,
  in_progress-done,
  in_progress-failed,
  done-failed,
)
