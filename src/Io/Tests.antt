-- ===== src/Io/Tests.antt =====
-- A record, a session of the reader, and a write to a queue whose host gives every buffer back.
use kstep.Prelude.{
  ◌<◌, ◌^◌, ℕ, ◌+◌, List, [], ◌∷◌, ◌++◌, map, length, Option, none, some, ◌≡◌, refl, arith, ltb,
  ◌==◌, if◌then◌else◌, Fault, ok, panic,
}
use kstep.Text.{Bytes, lit, tokens}
use kstep.Io.Json.{
  buf_size, Field, text, string, send_record, json_begin, json_end, add_fields, add_field,
  field_fmt, field_str, append_char, append_buf, append_str, append_fmt, drop_comma, io_check,
}
use kstep.Io.Json.Render.{rendered, send_record-rendered}
use kstep.Io.Reports.{cpu_key, llu, running_report, output_nr_running}
use kstep.Io.Reports.Fits.{output_nr_running-rendered}
use kstep.Io.Receive.{Reader, Step, arrive, turn, session}
use kstep.Io.Receive.Ring.{waiting}
use kstep.Io.Receive.Lines.{cut_to, arrived, fresh, session-lines, session-returns}
use kstep.Io.Pool.{Virtqueue, Tx, one, Holds, probed, io_write, send}
use kstep.Io.Pool.Conserve.{IsValid, probed-IsValid}
use kstep.Io.Pool.Write.{Sent, io_write-Sent}

abbrev reply : List Field
reply = text (lit "task") (lit "3") ∷ string (lit "error") (lit "no") ∷ []

send-reply :
    send_record (lit "12") reply
    ≡ ok (lit "{\"timestamp\":12,\"task\":3,\"error\":\"no\"}" ++ (b'\n' ∷ []))
unfolding send_record json_begin json_end add_fields add_field field_fmt field_str append_char
    append_buf append_str append_fmt drop_comma io_check
send-reply = refl

send_record-rendered_example :
    if ltb (length (rendered (lit "12") reply)) buf_size
    then send_record (lit "12") reply ≡ ok (rendered (lit "12") reply)
    else ((x : Fault) × (send_record (lit "12") reply ≡ panic x))
send_record-rendered_example = send_record-rendered (lit "12") reply

-- Two lines in three pieces, with turns between.
abbrev script : List Step
script =
    arrive (b't' ∷ b'i' ∷ [])
    ∷ turn
    ∷ arrive (b'c' ∷ b'k' ∷ b'\n' ∷ b'x' ∷ [])
    ∷ turn
    ∷ turn
    ∷ turn
    ∷ turn
    ∷ turn
    ∷ turn
    ∷ []

script-returns : (r : Reader) × (session 4 fresh script ≡ ok r)
script-returns = session-returns 4 script (omega arith)

session-returns_example : (r : Reader) × (session 4 fresh script ≡ ok r)
session-returns_example = session-returns 4 script (omega arith)

session-lines_example :
    (taken : Bytes) × (arrived script ≡ taken ++ waiting script-returns.0.rx)
    × (script-returns.0.lines ++ (script-returns.0.line ∷ [])
        ≡ map (cut_to 4) (tokens (λ c. c == b'\n') taken))
session-lines_example = session-lines 4 script script-returns.1

-- A queue that gives the oldest buffer back first.
abbrev oldest : List ℕ → Option (ℕ × List ℕ)
oldest [] = none
oldest (b ∷ q) = some (b, q)

abbrev line_up : Virtqueue (List ℕ)
line_up = record {
  get_buf = oldest;
  add_outbuf = λ b len q. if ltb (length q) 256 then some (q ++ (b ∷ [])) else none;
}

taken :
    (b len : ℕ) (q : List ℕ) {q' : List ℕ}
    → line_up.add_outbuf b len q ≡ some q'
    → q' ≡ q ++ (b ∷ [])
taken b len q h = ground (arith, h)

abbrev times : ℕ → List ℕ → ℕ
times x [] = 0
times x (b ∷ q) = times x q + one x b

times-append : (x b : ℕ) (q : List ℕ) → times x (q ++ (b ∷ [])) ≡ times x q + one x b
times-append x b [] = omega arith
times-append x b (c ∷ q) = omega (arith, times-append x b q)

length-snoc : (b : ℕ) (q : List ℕ) → length (q ++ (b ∷ [])) ≡ length q + 1
length-snoc b [] = refl
length-snoc b (c ∷ q) = omega (arith, length-snoc b q)

size_get : (q : List ℕ) {b : ℕ} {q' : List ℕ} → oldest q ≡ some (b, q') → length q ≡ length q' + 1
size_get [] e = cc
size_get (c ∷ q) e = ground arith

flight_get :
    (x : ℕ) (q : List ℕ) {b : ℕ} {q' : List ℕ}
    → oldest q ≡ some (b, q')
    → times x q ≡ times x q' + one x b
flight_get x [] e = cc
flight_get x (c ∷ q) e = ground arith

abbrev line_up-Holds : Holds line_up
line_up-Holds = record {
  in_flight = times;
  size = length;
  size_get = λ q e. size_get q e;
  get = λ x q e. flight_get x q e;
  size_add = λ b len q e. rw (taken b len q e) (length-snoc b q);
  add = λ x b len q e. rw (taken b len q e) (times-append x b q);
}

abbrev pool : Tx (List ℕ)
pool = probed line_up []

pool-IsValid : IsValid line_up line_up-Holds pool
pool-IsValid = probed-IsValid line_up line_up-Holds [] refl (λ x. refl)

abbrev written : Tx (List ℕ)
written = record pool { nfree = 255; mem = λ i. if i == 255 then lit "{}" else []; vq = 255 ∷ [] }

write-pool : io_write line_up (lit "{}") pool ≡ ok written
unfolding io_write send
write-pool = refl

io_write-Sent_example :
    (IsValid line_up line_up-Holds written) × Sent line_up line_up-Holds (lit "{}") pool written
io_write-Sent_example = io_write-Sent line_up line_up-Holds (lit "{}") pool pool-IsValid write-pool

-- Three CPUs, a hundred tasks on the second.
abbrev loads : ℕ → ℕ
loads cpu = if cpu == 2 then 100 else 1

few : (cpu : ℕ) → loads cpu < 10 ^ 5
few cpu = ground arith

output_nr_running-rendered_example :
    output_nr_running (lit "12") 3 loads ≡ ok (rendered (lit "12") (running_report 3 loads))
output_nr_running-rendered_example =
    output_nr_running-rendered (lit "12") 3 loads (omega arith) (omega arith) few

three :
    rendered (lit "12") (running_report 3 loads)
    ≡ lit "{\"timestamp\":12,\"type\":\"nr_running\",\"cpu1\":1,\"cpu2\":100,\"cpu3\":1}\n"
unfolding running_report cpu_key llu
three = refl
