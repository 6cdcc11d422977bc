-- ===== src/Uniform/Channel/Tests.antt =====
-- A run of a channel of src/uniform.rs: a write, a reservation, a take and a second reservation.
use frayed_cascade.Base.{ℕ, ◌≤◌, ◌≡◌, refl, true, false, ◌&&◌, Option, none, some, List, [], ◌∷◌}
use frayed_cascade.Uniform.Channel.{
  full, expired, Channel, Event, wrote, reserved, took, new, take_out, ctake, write, expire,
  reserve, writing, reserving, taking, Run, start, after, cell_new, cell_take, cell_write,
  cell_expire, cell_reserve,
}
use frayed_cascade.Uniform.Channel.Runs.{
  wins, writes, gains, last_written, cell_of, Run-single_use, took-last_written, cell-refines,
}

abbrev filled : Channel ℕ
filled = record { current = full 7; available = false }

abbrev emptied : Channel ℕ
emptied = record { current = expired; available = false }

abbrev two_events : List (Event ℕ)
two_events = reserved true ∷ wrote 7 ∷ []

abbrev four_events : List (Event ℕ)
four_events = reserved false ∷ took (some 7) ∷ two_events

filled-Run : Run new two_events filled
unfolding new write reserve
filled-Run = after (after start (writing 7)) reserving

taken : ctake filled ≡ some (some 7, emptied)
unfolding ctake take_out
taken = refl

emptied-Run : Run new four_events emptied
unfolding reserve
emptied-Run = after (after filled-Run (taking (some 7) emptied taken)) reserving

Run-single_use_example :
    (wins four_events ≤ 1)
    × (gains four_events ≤ writes four_events)
    × (emptied.available ≡ false → wins four_events ≡ 1)
Run-single_use_example = Run-single_use four_events emptied emptied-Run

took-last_written_example :
    (last_written two_events ≡ some 7)
    × ((x : Option ℕ) (d' : Channel ℕ) → ctake emptied ≡ some (x, d') → x ≡ none)
took-last_written_example = took-last_written two_events filled emptied 7 filled-Run taken

cell-refines_example :
    (cell_of {T = ℕ} new ≡ cell_new)
    × ((t : ℕ) → cell_of (write filled t) ≡ cell_write (cell_of filled) t)
    × (cell_of (expire filled) ≡ cell_expire (cell_of filled))
    × (cell_of (reserve filled).1 ≡ cell_of filled)
    × ((reserve filled).0 ≡ (cell_reserve (cell_of filled) && filled.available))
    × ((x : Option ℕ) (d : Channel ℕ)
        → ctake filled ≡ some (x, d)
        → cell_take (cell_of filled) ≡ (x, cell_of d))
cell-refines_example = cell-refines filled
