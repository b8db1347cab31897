-- ===== src/Siem/Queue/Store/Laws.antt =====
-- Writing the persist file of the queue and reading it back (pkg/siem/queue.go).
use basecheck_agent.Prelude.{
  ℕ, ◌<◌, ◌≤◌, ◌≡◌, refl, none, some, List, [], ◌∷◌, ◌++◌, map, ok, err, length, ltb, lt→ltb, arith,
  All, false,
}
use basecheck_agent.Siem.Event.{Event}
use basecheck_agent.Siem.Queue.Store.{
  Codec, File, token_too_long, max_scan_token_size, scan_events, load_persisted_events, persist,
}

-- The line of the event can be scanned, and decodes to the event.
abbrev pub IsReadable : Codec → Event → Type 0
IsReadable c e = (c.decode (c.encode e) ≡ some e) × (length (c.encode e) < max_scan_token_size)

scan_one :
    (c : Codec) (e : Event) (lines : List (List ℕ)) (es : List Event)
    → IsReadable c e
    → scan_events c lines ≡ ok es
    → scan_events c (c.encode e ∷ lines) ≡ ok (e ∷ es)
unfolding scan_events
scan_one c e lines es (d, n) rest = rw (lt→ltb _ _ n, d, rest)

pub scan_events-map :
    (c : Codec) (es : List Event) → All (IsReadable c) es → scan_events c (map c.encode es) ≡ ok es
unfolding scan_events
scan_events-map c [] h = refl
scan_events-map c (e ∷ es) (r, h) = scan_one c e (map c.encode es) es r (scan_events-map c es h)

-- What was persisted is read back, in order, if each event decodes to itself and each line fits.
pub load_persisted_events-persist :
    (c : Codec) (es : List Event) (file : File)
    → All (IsReadable c) es
    → load_persisted_events c none (persist c none es file).0 ≡ ok es
unfolding load_persisted_events persist
load_persisted_events-persist c es file h = scan_events-map c es h

scan_oversized :
    (c : Codec) (before : List Event) (e : Event) (after : List Event)
    → All (IsReadable c) before
    → max_scan_token_size ≤ length (c.encode e)
    → scan_events c (map c.encode (before ++ e ∷ after)) ≡ err token_too_long
unfolding scan_events
scan_oversized c [] e after h big =
    let no : ltb (length (c.encode e)) max_scan_token_size ≡ false = ground arith in rw no
scan_oversized c (b ∷ before) e after ((d, n), h) big =
    rw (lt→ltb _ _ n, d, scan_oversized c before e after h big)

-- One event of 64 KB or more is persisted without an error, and from then on the file cannot be
-- read: every load fails, whatever else the file holds behind readable events.
pub load_persisted_events-oversized :
    (c : Codec) (before : List Event) (e : Event) (after : List Event) (file : File)
    → All (IsReadable c) before
    → max_scan_token_size ≤ length (c.encode e)
    → ((persist c none (before ++ e ∷ after) file).1 ≡ none)
      × (load_persisted_events c none (persist c none (before ++ e ∷ after) file).0
          ≡ err token_too_long)
unfolding load_persisted_events persist
load_persisted_events-oversized c before e after file h big =
    (refl, scan_oversized c before e after h big)
