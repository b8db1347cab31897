-- ===== src/Siem/Examples/DeadLetters.antt =====
-- The theorem about the dead-letter file applied to a concrete series of writes.
use basecheck_agent.Prelude.{◌≡◌, refl, pos, true, false, none, some, [], ◌∷◌, ◌++◌, inl}
use basecheck_agent.Text.{Text, text, take}
use basecheck_agent.Siem.DeadLetter.{
  DeadLetter, Attempt, new_dead_letter, check_rotate, append_line, write_rotated, write_entry,
  write_all_entries,
}
use basecheck_agent.Siem.DeadLetter.Laws.{Logs, Holds, write_all_entries-refines}

abbrev whole : Attempt
whole = record {
  inspected = true;
  renamed = true;
  opened = true;
  line = some (text "a");
  cut = none;
}

-- The disk is full behind the first byte.
abbrev short : Attempt
short = record {
  inspected = true;
  renamed = true;
  opened = true;
  line = some (text "bc");
  cut = some 1;
}

abbrev fresh : DeadLetter
fresh = record { path = text "d"; max_size_mb = 100; is_open = false; current = none; old = [] }

configured : new_dead_letter (record { path = text "d"; max_size_mb = pos 0 }) none [] ≡ fresh
unfolding new_dead_letter
configured = refl

both_written : (write_all_entries (whole ∷ short ∷ []) fresh).1.current ≡ some (text "ab")
unfolding write_all_entries write_entry check_rotate write_rotated append_line take
both_written = refl

write_all_entries-refines_example :
    (let (faults, state) = write_all_entries (whole ∷ short ∷ []) fresh in
      (added : Text) × (Logs (whole ∷ short ∷ []) faults added × Holds state ([] ++ added)))
write_all_entries-refines_example =
    write_all_entries-refines (whole ∷ short ∷ []) fresh [] ([], (refl, inl refl))
