-- ===== src/Server/Shutdown.antt =====
-- How `runServer` of src/server_threaded.c ends, and what it leaves behind.
use jia_tuan_server.Common.{
  ◌≡◌, Bool, true, false, not, ◌&&◌, Option, none, some, List, [], ◌∷◌, ◌==◌, if◌then◌else◌,
}
use jia_tuan_server.WorkQueue.Links.{null}
use jia_tuan_server.Server.World.{base, World}
use jia_tuan_server.Server.Main.{
  StartAnswers, StartCall, run_loop, stop_workers, Ending, returned, died,
}

-- The event loop was run.
abbrev pub has_served : List StartCall → Bool
has_served [] = false
has_served (run_loop b ∷ calls) = true
has_served (call ∷ calls) = has_served calls

abbrev pub has_stopped : List StartCall → Bool
has_stopped [] = false
has_stopped (stop_workers ∷ calls) = true
has_stopped (call ∷ calls) = has_stopped calls

-- What is left behind by an end of `runServer` that started with `w`.
abbrev pub Leaves : StartAnswers → World → Ending → Type 0
Leaves a w (died code) = code ≡ 1
Leaves a w (returned code after calls) =
    (code ≡ (if has_served calls then 0 else 1))
    × (has_served calls ≡ (not (a.base_at == null) && a.started 8))
    × (after ≡ (
        if has_stopped calls
        then base a.base_at ∷ base a.current_at ∷ w
        else base a.current_at ∷ w))

abbrev EndsWell : StartAnswers → World → Option Ending → Type 0
EndsWell a w none = ⊥
EndsWell a w (some e) = Leaves a w e
