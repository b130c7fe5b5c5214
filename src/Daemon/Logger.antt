-- ===== src/Daemon/Logger.antt =====
-- `logger_child` of src/native/unix/native/jsvc-unix.c: the process that copies what the service writes to
-- the system's log. A turn of its loop is given by what `select` and the two `read`s return.
pub mod Chunks
mod Tests
use boundary_event_sdk.Prelude.{
  ℕ, Bool, true, false, not, ◌&&◌, ◌||◌, Option, none, some, List, [], ◌∷◌, ◌++◌, Bytes, ◌==◌,
  if◌then◌else◌,
}

-- What `read` of at most 1023 bytes returns, when it is not interrupted: -1, or the bytes, none at the
-- end of the pipe
pub data Read : Type 0 where
  broken : Read
  chunk : Bytes → Read

-- What `select` returns: -1 with `errno`, or which of the two can be read, and gives what; nothing when
-- the 60 seconds are up.
pub data Selected : Type 0 where
  select_fails : (errno : ℕ) → Selected
  ready : (out err : Option Read) → Selected

pub data Message : Type 0 where
  info : Bytes → Message
  err : Bytes → Message
  select_trouble : Message
  read_trouble : Message

-- The messages, and what `logger_child` returns; `none`: it goes on.
pub record Log : Type 0 where
  pub messages : List Message
  pub result : Option ℕ

-- `n > 0 && buf[0] != '\n'`
unfoldable pub worth_logging : Bytes → Bool
worth_logging [] = false
worth_logging (c ∷ s) = not (c == 10)

-- One descriptor in one turn: `open` says that it is not -1, `other` the same of the other one.
-- `leaves` is the `break`.
pub record Turn : Type 0 where
  pub messages : List Message
  pub open_still : Bool
  pub leaves : Bool

unfoldable pub turn : (log : Bytes → Message) → (open_now other : Bool) → Option Read → Turn
turn log false other r = record { messages = []; open_still = false; leaves = false }
turn log true other none = record { messages = []; open_still = true; leaves = false }
turn log true other (some broken) = record {
  messages = read_trouble ∷ [];
  open_still = not other;
  leaves = not other;
}
turn log true other (some (chunk s)) = record {
  messages = if worth_logging s then log s ∷ [] else [];
  open_still = true;
  leaves = false;
}

unfoldable pub logger_loop : (out_open err_open : Bool) → List Selected → Log
logger_loop out_open err_open [] = record {
  messages = [];
  result = if out_open || err_open then none else some 0;
}
logger_loop out_open err_open (select_fails e ∷ rounds) = record {
  messages = if out_open || err_open then select_trouble ∷ [] else [];
  result = some (if out_open || err_open then e else 0);
}
logger_loop out_open err_open (ready o r ∷ rounds) =
    let first = turn info out_open err_open o in
    let second = turn err err_open first.open_still r in
    let rest = logger_loop first.open_still second.open_still rounds in
    if not (out_open || err_open)
    then record { messages = []; result = some 0 }
    else if first.leaves
    then record { messages = first.messages; result = some 0 }
    else if second.leaves
    then record { messages = first.messages ++ second.messages; result = some 0 }
    else record {
      messages = first.messages ++ (second.messages ++ rest.messages);
      result = rest.result;
    }

abbrev einval : ℕ
einval = 22

unfoldable pub logger_child : (out_open err_open : Bool) → List Selected → Log
logger_child out_open err_open rounds =
    let log = logger_loop out_open err_open rounds in
    if out_open || err_open then log else record { messages = []; result = some einval }
