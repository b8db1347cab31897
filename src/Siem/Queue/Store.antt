-- ===== src/Siem/Queue/Store.antt =====
-- The persist file of the queue (`persist`, `loadPersistedEvents` of pkg/siem/queue.go): one JSON
-- line for each event. The JSON encoder and decoder are parameters. The scanner is that of package
-- bufio with its default buffer, in which a line and its newline must fit in 64 KB.
pub mod Laws
use basecheck_agent.Prelude.{
  ℕ, ◌*◌, Bool, Option, none, some, List, [], ◌∷◌, map, Result, ok, err, length, ltb, if◌then◌else◌,
}
use basecheck_agent.Siem.Fault.{Fault}
use basecheck_agent.Siem.Event.{Event}

-- `encode` is the line of an event without its newline.
pub record Codec : Type 0 where
  pub encode : Event → List ℕ
  pub decode : List ℕ → Option Event

-- The lines of the file; `none` where there is no file.
abbrev pub File : Type 0
File = Option (List (List ℕ))

pub data StoreError : Type 0 where
  io_failed : Fault → StoreError
  token_too_long : StoreError
  bad_json : StoreError

-- `bufio.MaxScanTokenSize`
abbrev pub max_scan_token_size : ℕ
max_scan_token_size = 65536

-- The loop over `scanner.Scan()`: any bad line is an error for the whole file.
unfoldable pub scan_events : Codec → List (List ℕ) → Result StoreError (List Event)
scan_events c [] = ok []
scan_events c (line ∷ lines) =
    let rest = scan_events c lines in
    if ltb (length line) max_scan_token_size
    then elim (c.decode line) [
      | none ↦ err bad_json
      | some e ↦ elim rest [ ok es ↦ ok (e ∷ es) | err x ↦ err x ]
    ]
    else err token_too_long

-- `io` is an error of opening or reading, other than that there is no file.
unfoldable pub load_persisted_events : Codec → Option Fault → File → Result StoreError (List Event)
load_persisted_events c io file = elim io [
  | some e ↦ err (io_failed e)
  | none ↦ elim file [ none ↦ ok [] | some lines ↦ scan_events c lines ]
]

-- A new file is written and renamed over the old one, so an error leaves the old one in place.
unfoldable pub persist : Codec → Option Fault → List Event → File → File × Option Fault
persist c io pending file = elim io [
  | some e ↦ (file, some e)
  | none ↦ (some (map c.encode pending), none)
]
