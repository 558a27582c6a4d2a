-- ===== src/Io/Json.antt =====
-- The JSON records of kmod/io.c: `struct kstep_json` of kmod/driver.h is the bytes written so far.
-- A value that the kernel's `vsnprintf` formats is given as its text.
pub mod Render
use kstep.Prelude.{
  ℕ, ◌+◌, ◌-◌, Bool, true, false, List, [], ◌∷◌, ◌++◌, length, leb, ltb, ◌==◌, if◌then◌else◌,
  Outcome, ok, panic, json_overflow, json_format, record_too_long, ◌>>=◌,
}
use kstep.Text.{Bytes, lit}

-- `sizeof(json->buf)`
abbrev pub buf_size : ℕ
buf_size = 504

-- TX_BUF
abbrev pub tx_buf : ℕ
tx_buf = 512

unfoldable pub append_char : Bytes → ℕ → Outcome Bytes
append_char json c =
    if leb buf_size (length json + 1) then panic json_overflow else ok (json ++ (c ∷ []))

unfoldable pub append_buf : Bytes → Bytes → Outcome Bytes
append_buf json buf =
    if leb buf_size (length json + length buf) then panic json_overflow else ok (json ++ buf)

unfoldable pub append_str : Bytes → Bytes → Outcome Bytes
append_str json str = do a ← append_char json b'"'; b ← append_buf a str; append_char b b'"'

-- `vsnprintf` into what is left of the buffer: its closing NUL must fit too.
unfoldable pub append_fmt : Bytes → Bytes → Outcome Bytes
append_fmt json val =
    if leb (buf_size - length json) (length val) then panic json_format else ok (json ++ val)

-- `kstep_json_field_vfmt`, through which `kstep_json_field_u64`, `_s64` and `_bool` go.
unfoldable pub field_fmt : Bytes → Bytes → Bytes → Outcome Bytes
field_fmt json key val = do
  a ← append_str json key
  b ← append_char a b':'
  c ← append_fmt b val
  append_char c b','

unfoldable pub field_str : Bytes → Bytes → Bytes → Outcome Bytes
field_str json key val = do
  a ← append_str json key
  b ← append_char a b':'
  c ← append_str b val
  append_char c b','

-- The last byte is dropped if it is a comma.
unfoldable pub drop_comma : Bytes → Bytes
drop_comma [] = []
drop_comma (c ∷ []) = if c == b',' then [] else c ∷ []
drop_comma (c ∷ d ∷ json) = c ∷ drop_comma (d ∷ json)

-- The first check of `kstep_io_write`; the result is what is sent.
unfoldable pub io_check : Bytes → Outcome Bytes
io_check data_sent = if ltb tx_buf (length data_sent) then panic record_too_long else ok data_sent

unfoldable pub json_end : Bytes → Outcome Bytes
json_end json = do a ← append_char (drop_comma json) b'}'; b ← append_char a b'\n'; io_check b

-- A field that a caller adds, with its value as text.
pub data Field : Type 0 where
  text : Bytes → Bytes → Field
  string : Bytes → Bytes → Field

unfoldable pub add_field : Bytes → Field → Outcome Bytes
add_field json (text key val) = field_fmt json key val
add_field json (string key val) = field_str json key val

unfoldable pub add_fields : Bytes → List Field → Outcome Bytes
add_fields json [] = ok json
add_fields json (f ∷ fs) = do a ← add_field json f; add_fields a fs

-- `now` is the text of `kstep_jiffies_get()`.
unfoldable pub json_begin : Bytes → Outcome Bytes
json_begin now = do a ← append_char [] b'{'; field_fmt a (lit "timestamp") now

-- A record from its begin to its end.
unfoldable pub send_record : Bytes → List Field → Outcome Bytes
send_record now fs = do a ← json_begin now; b ← add_fields a fs; json_end b

-- `kstep_json_print_2kv`
pub print_2kv : Bytes → Bytes → Bytes → Bytes → Bytes → Outcome Bytes
print_2kv now key1 val1 key2 val2 = send_record now (string key1 val1 ∷ text key2 val2 ∷ [])

-- `kstep_output_migrate`, with the numbers as text.
pub output_migrate : Bytes → Bytes → Bytes → Bytes → Outcome Bytes
output_migrate now task src_cpu dst_cpu = send_record now (
    string (lit "type") (lit "migrate")
    ∷ text (lit "task") task
    ∷ text (lit "src_cpu") src_cpu
    ∷ text (lit "dst_cpu") dst_cpu
    ∷ [])

-- `kstep_output_balance`; `span` is the CPU list, without its quotes.
pub output_balance : Bytes → Bytes → Bytes → Bytes → Outcome Bytes
output_balance now cpu span name = send_record now (
    string (lit "type") (lit "load_balance")
    ∷ text (lit "dst_cpu") cpu
    ∷ text (lit "span") (b'"' ∷ (span ++ (b'"' ∷ [])))
    ∷ string (lit "name") name
    ∷ [])
