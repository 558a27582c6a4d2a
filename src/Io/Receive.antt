-- ===== src/Io/Receive.antt =====
-- The receiving side of kmod/io.c: `rx_ring`, which `rx_done` fills and `kstep_io_readline` empties,
-- each under `rx_lock`.
pub mod Ring
pub mod Lines
use kstep.Prelude.{
  ℕ, ◌+◌, ◌-◌, ◌%◌, Bool, true, false, not, ◌&&◌, List, [], ◌∷◌, ◌++◌, length, get_or, set,
  replicate, leb, ltb, ◌==◌, if◌then◌else◌, Option, none, some, Outcome, ok, panic, input_overflow,
  ◌>>=◌,
}
use kstep.Prelude.Ring.{add_u32, sub_u32}
use kstep.Text.{Bytes}

-- `sizeof(rx_ring)`
abbrev pub ring_size : ℕ
ring_size = 4096

pub record Rx : Type 0 where
  pub ring : List ℕ
  pub head : ℕ
  pub tail : ℕ

abbrev pub no_input : Rx
no_input = record { ring = replicate ring_size 0; head = 0; tail = 0 }

-- One byte of `rx_done`.
unfoldable pub rx_put : Rx → ℕ → Outcome Rx
rx_put rx c =
    if sub_u32 rx.head rx.tail == ring_size
    then panic input_overflow
    else ok (record rx { ring = set rx.ring (rx.head % ring_size) c; head = add_u32 rx.head 1 })

-- `rx_done`, with the bytes of the buffers that it gets.
unfoldable pub rx_done : Rx → Bytes → Outcome Rx
rx_done rx [] = ok rx
rx_done rx (c ∷ cs) = do rx' ← rx_put rx c; rx_done rx' cs

-- The byte that the reader takes once `rx_head != rx_tail`.
unfoldable pub rx_take : Rx → ℕ × Rx
rx_take rx = (get_or rx.ring (rx.tail % ring_size) 0, record rx { tail = add_u32 rx.tail 1 })

-- A reader that calls `kstep_io_readline(line, max)` again and again: the line it is at, and the
-- lines that calls have returned.
pub record Reader : Type 0 where
  pub rx : Rx
  pub line : Bytes
  pub lines : List Bytes

-- The body of the loop, with the byte taken.
unfoldable pub accept : ℕ → ℕ → Reader → Reader
accept max c r =
    if c == b'\n'
    then record r { line = []; lines = r.lines ++ (r.line ∷ []) }
    else if ltb (length r.line + 1) max
    then record r { line = r.line ++ (c ∷ []) }
    else r

-- One turn of the reader; it sleeps while there is no byte.
unfoldable pub read_turn : ℕ → Reader → Reader
unfolding accept
read_turn max r =
    if r.rx.head == r.rx.tail
    then r
    else accept max (rx_take r.rx).0 (record r { rx = (rx_take r.rx).1 })

-- What happens, in the order of the lock: bytes arrive, or the reader has a turn.
pub data Step : Type 0 where
  arrive : Bytes → Step
  turn : Step

unfoldable pub session : ℕ → Reader → List Step → Outcome Reader
unfolding read_turn
session max r [] = ok r
session max r (arrive cs ∷ steps) = do
  rx ← rx_done r.rx cs
  session max (record r { rx = rx }) steps
session max r (turn ∷ steps) = session max (read_turn max r) steps
