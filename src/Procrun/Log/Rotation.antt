-- ===== src/Procrun/Log/Rotation.antt =====
-- When the log is rotated, and which file its lines go to.
use boundary_event_sdk.Prelude.{
  ℕ, ◌+◌, ◌*◌, ◌%◌, ◌^◌, ◌≡◌, ◌≤◌, ◌<◌, refl, Bool, true, false, not, ◌&&◌, Option, none, some,
  List, [], ◌∷◌, ◌++◌, Bytes, length, is_some, ltb, ◌==◌, if◌then◌else◌, arith, if_elim, sym, ◌∙◌,
}
use boundary_event_sdk.Procrun.Log.{
  Time, LogFile, Event, opens, wrote, flushed, closed, Windows, rank, too_early, log_rotate,
}
use boundary_event_sdk.Procrun.Log.Writing.{
  Call, Moment, trim_line, stamp, place_events, place_of, message_of, line_events, write_line,
  log_write,
}

-- A time in ticks of 100 nanoseconds before which the log is not rotated, the handle of the log's file, and the
-- handle it has taken the place of, which is not yet closed
abbrev pub State : Type 0
State = ℕ × ℕ × Option ℕ

-- From the first state, a file is made only if its time has come, and there is a time to wait at all; what is
-- written goes to the newest file; and the file it has taken the place of is closed before anything else is made.
abbrev pub Traced : Windows → (gap : ℕ) → State → List Event → State → Type 0
Traced w gap (from, h, old) [] (to, k, kept) = (from ≡ to) × (h ≡ k) × (old ≡ kept)
Traced w gap (from, h, old) (wrote j s ∷ es) to = (j ≡ h) × Traced w gap (from, h, old) es to
Traced w gap (from, h, old) (flushed j ∷ es) to = (j ≡ h) × Traced w gap (from, h, old) es to
Traced w gap (from, h, old) (closed j ∷ es) to = (old ≡ some j) × Traced w gap (from, h, none) es to
Traced w gap (from, h, old) (opens t name none ∷ es) to =
    (1 ≤ gap) × (from ≤ w.ticks t) × Traced w gap (w.ticks t + gap, h, old) es to
Traced w gap (from, h, old) (opens t name (some j) ∷ es) to =
    (1 ≤ gap) × (from ≤ w.ticks t) × (old ≡ none) × Traced w gap (w.ticks t + gap, j, some h) es to

Traced-append :
    (w : Windows) (gap : ℕ) (a b c : State) (es fs : List Event)
    → Traced w gap a es b
    → Traced w gap b fs c
    → Traced w gap a (es ++ fs) c
Traced-append w gap (from, h, old) (to, k, kept) c [] fs (e1, e2, e3) y = rw (e1, e2, e3) y
Traced-append w gap (from, h, old) b c (wrote j s ∷ es) fs x y =
    (x.0, Traced-append w gap (from, h, old) b c es fs x.1 y)
Traced-append w gap (from, h, old) b c (flushed j ∷ es) fs x y =
    (x.0, Traced-append w gap (from, h, old) b c es fs x.1 y)
Traced-append w gap (from, h, old) b c (closed j ∷ es) fs x y =
    (x.0, Traced-append w gap (from, h, none) b c es fs x.1 y)
Traced-append w gap (from, h, old) b c (opens t name none ∷ es) fs x y =
    (x.0, x.1, Traced-append w gap (w.ticks t + gap, h, old) b c es fs x.2 y)
Traced-append w gap (from, h, old) b c (opens t name (some j) ∷ es) fs x y =
    (x.0, x.1, x.2, Traced-append w gap (w.ticks t + gap, j, some h) b c es fs x.3 y)

abbrev pub gap_of : LogFile → ℕ
gap_of lf = lf.rotate * 10000000

abbrev pub from_of : Windows → LogFile → ℕ
from_of w lf = w.ticks lf.time + gap_of lf

-- Every time is before 2 ^ 63 ticks, the last that `SystemTimeToFileTime` documents, and the waiting time is a
-- `DWORD`.
abbrev pub Fits : Windows → LogFile → Type 0
Fits w lf = ((t : Time) → w.ticks t < 2 ^ 63) × (lf.rotate < 2 ^ 32)

too_early-due :
    (w : Windows) (lf : LogFile) (t : Time)
    → Fits w lf
    → too_early w lf t ≡ false
    → (1 ≤ gap_of lf) × (from_of w lf ≤ w.ticks t)
unfolding too_early
too_early-due w lf t fits due =
    let now = fits.0 t in
    let last = fits.0 (lf.time) in
    let wait = fits.1 in
    let whole : (w.ticks lf.time + lf.rotate * 10000000) % 2 ^ 64
        ≡ w.ticks lf.time + lf.rotate * 10000000 =
      omega (arith, last, wait) in
    (ground (arith, due, whole), ground (arith, due, whole))

-- The log goes on with the handle and the waiting time, and a file that it no longer uses is closed.
abbrev pub Kept : Windows → LogFile → (h : ℕ) → LogFile × List Event → Type 0
Kept w lf h r =
    (k : ℕ) × (r.0.handle ≡ some k)
    × (r.0.rotate ≡ lf.rotate)
    × Traced w (gap_of lf) (from_of w lf, h, none) r.1 (from_of w r.0, k, none)

log_rotate-Kept :
    (w : Windows) (opened : Option ℕ) (t : Time) (lf : LogFile) (h : ℕ)
    → Fits w lf
    → lf.handle ≡ some h
    → Kept w lf h (log_rotate w opened t lf)
unfolding log_rotate
log_rotate-Kept w none t lf h fits e =
    if_elim (Kept w lf h) (too_early w lf t) _ _ (λ _. (h, e, refl, (refl, refl, refl)))
      (λ due. let d = too_early-due w lf t fits due in (h, e, refl, (d.0, d.1, (refl, refl, refl))))
log_rotate-Kept w (some j) t lf h fits e =
    if_elim (Kept w lf h) (too_early w lf t) _ _ (λ _. (h, e, refl, (refl, refl, refl)))
      (λ due.
        let d = too_early-due w lf t fits due in
        (j, refl, refl, rw e (d.0, d.1, refl, (refl, (refl, refl, refl)))))

-- The events only write to the file, or flush it.
abbrev Writes : (h : ℕ) → List Event → Type 0
Writes h [] = Unit {0}
Writes h (wrote j s ∷ es) = (j ≡ h) × Writes h es
Writes h (flushed j ∷ es) = (j ≡ h) × Writes h es
Writes h (closed j ∷ es) = false ≡ true
Writes h (opens t name a ∷ es) = false ≡ true

Writes-append : (h : ℕ) (es fs : List Event) → Writes h es → Writes h fs → Writes h (es ++ fs)
Writes-append h [] fs x y = y
Writes-append h (wrote j s ∷ es) fs x y = (x.0, Writes-append h es fs x.1 y)
Writes-append h (flushed j ∷ es) fs x y = (x.0, Writes-append h es fs x.1 y)
Writes-append h (closed j ∷ es) fs x y = absurd (ground (arith, x))
Writes-append h (opens t name a ∷ es) fs x y = absurd (ground (arith, x))

Traced-Writes :
    (w : Windows) (gap from h : ℕ) (old : Option ℕ) (es : List Event)
    → Writes h es
    → Traced w gap (from, h, old) es (from, h, old)
Traced-Writes w gap from h old [] x = (refl, refl, refl)
Traced-Writes w gap from h old (wrote j s ∷ es) x = (x.0, Traced-Writes w gap from h old es x.1)
Traced-Writes w gap from h old (flushed j ∷ es) x = (x.0, Traced-Writes w gap from h old es x.1)
Traced-Writes w gap from h old (closed j ∷ es) x = absurd (ground (arith, x))
Traced-Writes w gap from h old (opens t name a ∷ es) x = absurd (ground (arith, x))

if-Writes :
    (h : ℕ) (b : Bool) (es fs : List Event)
    → Writes h es
    → Writes h fs
    → Writes h (if b then es else fs)
if-Writes h b es fs x y = if_elim (Writes h) b es fs (λ _. x) (λ _. y)

place_events-Writes :
    (h : ℕ) (lf : LogFile) (c : Call) (f : Option Bytes) → Writes h (place_events h lf c f)
place_events-Writes h lf c none = tt
place_events-Writes h lf c (some f) = if-Writes h (rank lf.level == 0) _ [] (refl, tt) tt

line_events-Writes :
    (h : ℕ) (w : Windows) (lf : LogFile) (c : Call) (t : Time) → Writes h (line_events h w lf c t)
unfolding line_events
line_events-Writes h w lf c t =
    let body = trim_line (message_of w lf c) in
    let join =
      λ (es fs : List Event) (x : Writes h es) (y : Writes h fs). Writes-append h es fs x y in
    join _ _
      (join _ _
        (join _ _
          (join _ _
            (join _ _
              (join _ _ (if-Writes h (c.stamped) (wrote h (stamp t) ∷ []) [] (refl, tt) tt)
                (refl, tt))
              (place_events-Writes h lf c (place_of lf c)))
            (refl, tt))
          (if-Writes h (length body == 0) [] (wrote h body ∷ []) tt (refl, tt)))
        (refl, tt))
      (if-Writes h (rank c.level == 0) [] (flushed h ∷ []) tt (refl, tt))

write_line-Kept :
    (w : Windows) (c : Call) (t : Time) (opened : Option ℕ) (lf : LogFile) (h : ℕ)
    → Fits w lf
    → lf.handle ≡ some h
    → Kept w lf h (write_line false w c (t, opened) lf)
unfolding write_line
write_line-Kept w c t opened lf h fits e =
    let r = log_rotate w opened t lf in
    let (k, now, same, traced) = log_rotate-Kept w opened t lf h fits e in
    let after =
      Traced-append w (gap_of lf) (from_of w lf, h, none) (from_of w r.0, k, none)
        (from_of w r.0, k, none) (r.1) (line_events k w lf c t) traced
        (Traced-Writes w (gap_of lf) (from_of w r.0) k none (line_events k w lf c t)
          (line_events-Writes k w lf c t)) in
    if_elim (Kept w lf h) (length (message_of w lf c) == 0) _ _
      (λ _. (h, e, refl, (refl, refl, refl))) (λ _. rw (e, now) (k, refl, same, after))

Traced-gap :
    (w : Windows) (gap gap' : ℕ) (a b : State) (es : List Event)
    → gap ≡ gap'
    → Traced w gap a es b
    → Traced w gap' a es b
Traced-gap w gap gap' a b es e x = rw (sym e) x

-- After events that kept the log, others that keep it do so too.
then-Kept :
    (w : Windows) (lf : LogFile) (h : ℕ) (r : LogFile × List Event)
    (next : LogFile → LogFile × List Event)
    → Kept w lf h r
    → ((k : ℕ) → r.0.handle ≡ some k → r.0.rotate ≡ lf.rotate → Kept w (r.0) k (next r.0))
    → Kept w lf h ((next r.0).0, r.1 ++ (next r.0).1)
then-Kept w lf h (lf1, es) next (k, now, same, traced) more =
    let (j, last, rotate, after) = more k now same in
    (
      j,
      last,
      rotate ∙ same,
      Traced-append w (gap_of lf) (from_of w lf, h, none) (from_of w lf1, k, none)
          (from_of w (next lf1).0, j, none) es ((next lf1).1) traced
          (Traced-gap w (gap_of lf1) (gap_of lf) (from_of w lf1, k, none)
            (from_of w (next lf1).0, j, none) ((next lf1).1) (omega (arith, same)) after),
    )

log_write-Kept :
    (w : Windows) (c : Call) (m m' : Moment) (lf : LogFile) (h : ℕ)
    → Fits w lf
    → lf.handle ≡ some h
    → Kept w lf h ((log_write false w c m m' lf).1, (log_write false w c m m' lf).2)
unfolding log_write
log_write-Kept w c (t, opened) (t', opened') lf h fits e =
    let P = λ (r : ℕ × LogFile × List Event). Kept w lf h (r.1, r.2) in
    let first = write_line-Kept w c t opened lf h fits e in
    if_elim P (ltb (rank c.level) (rank lf.level)) _ _ (λ _. (h, e, refl, (refl, refl, refl)))
      (λ _.
        if_elim P (is_some c.text && (not (c.err == 0) && (rank c.level == 3))) _ _
          (λ _.
            then-Kept w lf h (write_line false w c (t, opened) lf)
              (write_line false w (record c { text = none }) (t', opened')) first
              (λ (k : ℕ) now same.
                write_line-Kept w (record c { text = none }) t' opened'
                  ((write_line false w c (t, opened) lf).0) k (fits.0, rw same fits.1) now))
          (λ _. first))

-- What `apxLogWrite` does for one call after the other
unfoldable pub log_run : Windows → List (Call × Moment × Moment) → LogFile → LogFile × List Event
unfolding log_write
log_run w [] lf = (lf, [])
log_run w ((c, m, m') ∷ calls) lf =
    let (len, lf1, es) = log_write false w c m m' lf in
    let (lf2, fs) = log_run w calls lf1 in (lf2, es ++ fs)

-- If the times are ones that `SystemTimeToFileTime` takes and the log has an open file, then over any calls of
-- `apxLogWrite`: a file is made only if the log is rotated at all, and `dwRotate` seconds or more after the last one
-- was, or the log was opened; every line goes to the newest file that could be made; and the file before it is
-- closed, once, before the next is made.
pub log_run-Kept :
    (w : Windows) (calls : List (Call × Moment × Moment)) (lf : LogFile) (h : ℕ)
    → Fits w lf
    → lf.handle ≡ some h
    → Kept w lf h (log_run w calls lf)
unfolding log_run
log_run-Kept w [] lf h fits e = (h, e, refl, (refl, refl, refl))
log_run-Kept w ((c, m, m') ∷ calls) lf h fits e =
    let one = log_write false w c m m' lf in
    then-Kept w lf h (one.1, one.2) (log_run w calls) (log_write-Kept w c m m' lf h fits e)
      (λ (k : ℕ) now same. log_run-Kept w calls (one.1) k (fits.0, rw same fits.1) now)
