-- ===== src/Daemon/Logger/Chunks.antt =====
-- What the logger writes of what it reads.
use boundary_event_sdk.Prelude.{
  ℕ, zero, suc, ◌≡◌, refl, true, none, some, List, [], ◌∷◌, ◌++◌, Bytes, if◌then◌else◌, arith, ◌==◌,
}
use boundary_event_sdk.Daemon.Logger.{
  chunk, Selected, ready, Message, info, err, worth_logging, turn, logger_loop, logger_child,
}

-- Turns in which both pipes are read
abbrev pub both : List (Bytes × Bytes) → List Selected
both [] = []
both ((o, r) ∷ texts) = ready (some (chunk o)) (some (chunk r)) ∷ both texts

-- What is to be logged of a piece: nothing, if it is empty or its first byte is a newline (10).
abbrev pub kept : (log : Bytes → Message) → Bytes → List Message
kept log [] = []
kept log (c ∷ s) = if c == 10 then [] else log (c ∷ s) ∷ []

abbrev pub logged : List (Bytes × Bytes) → List Message
logged [] = []
logged ((o, r) ∷ texts) = kept info o ++ (kept err r ++ logged texts)

abbrev pub at_end : ℕ → List Selected
at_end zero = []
at_end (suc n) = ready (some (chunk [])) (some (chunk [])) ∷ at_end n

-- When both pipes are at their ends, each `select` returns at once and each `read` gives nothing: the
-- logger turns round without an end, and without a message.
pub logger_child_spins :
    (n : ℕ) → logger_child true true (at_end n) ≡ record { messages = []; result = none }
unfolding logger_child logger_loop turn worth_logging
logger_child_spins zero = refl
logger_child_spins (suc n) = ground (arith, logger_child_spins n)
