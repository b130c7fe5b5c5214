-- ===== src/Procrun/Process/Streams/Written.antt =====
-- Whatever the pipe takes at a time, the child gets the bytes in their order.
use boundary_event_sdk.Prelude.{
  ◌≡◌, ◌≤◌, true, false, none, some, List, [], ◌∷◌, Bytes, length, drop,
}
use boundary_event_sdk.Procrun.Process.Streams.{Answer}

-- No answer takes nothing, or more than it was given, and none fails or finds the child ended.
abbrev pub AllTake : List Answer → Bytes → Type 0
AllTake [] buf = Unit {0}
AllTake ((none, running) ∷ more) buf = false ≡ true
AllTake ((some wr, running) ∷ more) buf =
    (1 ≤ wr) × (wr ≤ length buf) × (running ≡ true) × AllTake more (drop wr buf)
