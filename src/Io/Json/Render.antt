-- ===== src/Io/Json/Render.antt =====
-- What a record is: the fields as a JSON object on one line, or a panic where that does not fit.
use mathlib.Core.List.{append_assoc, append-nil}
use kstep.Prelude.{
  ℕ, ◌+◌, ◌≤◌, ◌<◌, Bool, true, false, List, [], ◌∷◌, ◌++◌, map, length, length-append, ◌≡◌, refl,
  sym, ap, ◌∙◌, arith, leb, ltb, ◌==◌, if◌then◌else◌, Fault, Bool-cases, Outcome, ok, panic, ◌>>=◌,
  inl, inr, ◌⊎◌,
}
use native.Mathlib.Decide.{dec_lt}
use kstep.Text.{Bytes, lit}
use kstep.Io.Json.{
  buf_size, append_char, append_buf, append_str, append_fmt, field_fmt, field_str, drop_comma,
  io_check, json_end, Field, text, string, add_field, add_fields, json_begin, send_record,
}

-- The call comes to `json` with `s` behind it if that leaves room for a NUL, and else it panics.
pub record Appends (json s : Bytes) (call : Outcome Bytes) : Type 0 where
  pub fits : length json + length s < buf_size → call ≡ ok (json ++ s)
  pub fails : buf_size ≤ length json + length s → (x : Fault) × (call ≡ panic x)

char-Appends : (json : Bytes) (c : ℕ) → Appends json (c ∷ []) (append_char json c)
unfolding append_char
char-Appends json c = record {
  fits = λ h. ground arith;
  fails = λ h. (kstep.Prelude.json_overflow, ground arith);
}

buf-Appends : (json s : Bytes) → Appends json s (append_buf json s)
unfolding append_buf
buf-Appends json s = record {
  fits = λ h. ground arith;
  fails = λ h. (kstep.Prelude.json_overflow, ground arith);
}

fmt-Appends : (json s : Bytes) → Appends json s (append_fmt json s)
unfolding append_fmt
fmt-Appends json s = record {
  fits = λ h. ground arith;
  fails = λ h. (kstep.Prelude.json_format, ground arith);
}

bind-Appends :
    (json s t : Bytes) (call : Outcome Bytes) (next : Bytes → Outcome Bytes)
    → Appends json s call
    → (length (json ++ s) < buf_size → Appends (json ++ s) t (next (json ++ s)))
    → Appends json (s ++ t) (call >>= next)
bind-Appends json s t call next a after = elim (dec_lt (length json + length s) buf_size) [
  | yes lt ↦
      let b = after (omega (arith, lt, length-append json s)) in
      record {
        fits = λ h. rw (a.fits lt) (
            b.fits (omega (arith, h, length-append s t, length-append json s))
            ∙ ap ok (append_assoc json s t));
        fails = λ h.
            rw (a.fits lt) (b.fails (omega (arith, h, length-append s t, length-append json s)));
      }
  | no ge ↦
      let (x, e) = a.fails (omega arith) in
      record {
        fits = λ h. absurd (omega (arith, h, ge, length-append s t));
        fails = λ h. (x, rw e);
      }
]

str-Appends : (json s : Bytes) → Appends json (b'"' ∷ (s ++ (b'"' ∷ []))) (append_str json s)
unfolding append_str
str-Appends json s =
    bind-Appends json (b'"' ∷ []) (s ++ (b'"' ∷ [])) (append_char json b'"') _
      (char-Appends json b'"')
      (λ h.
        bind-Appends _ s (b'"' ∷ []) (append_buf _ s) _ (buf-Appends _ s)
          (λ h. char-Appends _ b'"'))

-- The text of a string, of a value, and of a field.
abbrev pub quoted : Bytes → Bytes
quoted s = b'"' ∷ (s ++ (b'"' ∷ []))

abbrev pub member : Field → Bytes
member (text key val) = quoted key ++ (b':' ∷ val)
member (string key val) = quoted key ++ (b':' ∷ quoted val)

abbrev closed : List Field → Bytes
closed [] = []
closed (f ∷ fs) = (member f ++ (b',' ∷ [])) ++ closed fs

field-Appends :
    (json key s : Bytes) (val : Bytes → Outcome Bytes)
    → ((a : Bytes) → Appends a s (val a))
    → Appends json
        ((quoted key ++ (b':' ∷ s)) ++ (b',' ∷ []))
        (do a ← append_str json key; b ← append_char a b':'; c ← val b; append_char c b',')
field-Appends json key s val v = rw (append_assoc (quoted key) (b':' ∷ s) (b',' ∷ [])) (
    bind-Appends json (quoted key) (b':' ∷ (s ++ (b',' ∷ []))) (append_str json key) _
      (str-Appends json key)
      (λ h.
        bind-Appends _ (b':' ∷ []) (s ++ (b',' ∷ [])) (append_char _ b':') _ (char-Appends _ b':')
          (λ h'. bind-Appends _ s (b',' ∷ []) (val _) _ (v _) (λ h''. char-Appends _ b','))))

add-Appends : (json : Bytes) (f : Field) → Appends json (member f ++ (b',' ∷ [])) (add_field json f)
unfolding add_field field_fmt field_str
add-Appends json (text key val) =
    field-Appends json key val (λ b. append_fmt b val) (λ a. fmt-Appends a val)
add-Appends json (string key val) =
    field-Appends json key (quoted val) (λ b. append_str b val) (λ a. str-Appends a val)

adds-Appends :
    (json : Bytes) (fs : List Field)
    → length json < buf_size
    → Appends json (closed fs) (add_fields json fs)
unfolding add_fields
adds-Appends json [] h = record {
  fits = λ _. ap ok (sym (append-nil json));
  fails = λ ge. absurd (omega (arith, h, ge));
}
adds-Appends json (f ∷ fs) h =
    bind-Appends json (member f ++ (b',' ∷ [])) (closed fs) (add_field json f) _
      (add-Appends json f) (λ lt. adds-Appends _ fs lt)

-- The fields between the braces, with a comma between two of them.
abbrev pub listed : Field → List Field → Bytes
listed f [] = member f
listed f (g ∷ fs) = member f ++ (b',' ∷ listed g fs)

closed-listed : (f : Field) (fs : List Field) → closed (f ∷ fs) ≡ listed f fs ++ (b',' ∷ [])
closed-listed f [] = append-nil _
closed-listed f (g ∷ fs) =
    ap (λ t. (member f ++ (b',' ∷ [])) ++ t) (closed-listed g fs)
    ∙ append_assoc (member f) (b',' ∷ []) (listed g fs ++ (b',' ∷ []))
    ∙ sym (append_assoc (member f) (b',' ∷ listed g fs) (b',' ∷ []))

abbrev pub stamp : Bytes → Field
stamp now = text (lit "timestamp") now

bind_assoc :
    (call : Outcome Bytes) (f g : Bytes → Outcome Bytes)
    → ((call >>= f) >>= g) ≡ (call >>= λ a. f a >>= g)
bind_assoc (panic x) f g = refl
bind_assoc (ok a) f g = refl

abbrev opened : Bytes → List Field → Outcome Bytes
opened now fs = json_begin now >>= λ a. add_fields a fs

begin-Appends :
    (now : Bytes) → Appends [] (b'{' ∷ (member (stamp now) ++ (b',' ∷ []))) (json_begin now)
unfolding json_begin field_fmt add_field
begin-Appends now =
    bind-Appends [] (b'{' ∷ []) (member (stamp now) ++ (b',' ∷ [])) (append_char [] b'{') _
      (char-Appends [] b'{') (λ h. add-Appends _ (stamp now))

opened-Appends :
    (now : Bytes) (fs : List Field)
    → Appends [] ((b'{' ∷ listed (stamp now) fs) ++ (b',' ∷ [])) (opened now fs)
opened-Appends now fs = rw (← closed-listed (stamp now) fs) (
    bind-Appends [] (b'{' ∷ (member (stamp now) ++ (b',' ∷ []))) (closed fs) (json_begin now) _
      (begin-Appends now) (λ lt. adds-Appends _ fs lt))

drop-append : (json : Bytes) → drop_comma (json ++ (b',' ∷ [])) ≡ json
unfolding drop_comma
drop-append [] = refl
drop-append (c ∷ []) = refl
drop-append (c ∷ d ∷ json) = ap (◌∷◌ c) (drop-append (d ∷ json))

check-Appends : (json : Bytes) → length json < buf_size → Appends json [] (io_check json)
unfolding io_check
check-Appends json h = record {
  fits = λ _. ground (arith, append-nil json);
  fails = λ ge. absurd (omega (arith, h, ge));
}

end-Appends :
    (json : Bytes)
    → length json < buf_size
    → Appends json (b'}' ∷ b'\n' ∷ []) (json_end (json ++ (b',' ∷ [])))
unfolding json_end
end-Appends json h = rw (drop-append json) (
    bind-Appends json (b'}' ∷ []) (b'\n' ∷ []) (append_char json b'}') _ (char-Appends json b'}')
      (λ _.
        bind-Appends _ (b'\n' ∷ []) [] (append_char _ b'\n') _ (char-Appends _ b'\n')
          (λ lt. check-Appends _ lt)))

-- The line that a record is.
abbrev pub rendered : Bytes → List Field → Bytes
rendered now fs = (b'{' ∷ listed (stamp now) fs) ++ (b'}' ∷ b'\n' ∷ [])

closing :
    (open_part : Bytes) (call : Outcome Bytes)
    → Appends [] (open_part ++ (b',' ∷ [])) call
    → Appends [] (open_part ++ (b'}' ∷ b'\n' ∷ [])) (call >>= json_end)
closing open_part call a =
    let one = length-append open_part (b',' ∷ []) in
    let two = length-append open_part (b'}' ∷ b'\n' ∷ []) in
    elim (dec_lt (length open_part + 1) buf_size) [
      | yes lt ↦
          let e = end-Appends open_part (omega (arith, lt)) in
          let called = a.fits (omega (arith, lt, one)) in
          record {
            fits = λ h. rw called (e.fits (omega (arith, h, two)));
            fails = λ h. rw called (e.fails (omega (arith, h, two)));
          }
      | no ge ↦
          let (x, e) = a.fails (omega (arith, ge, one)) in
          record { fits = λ h. absurd (omega (arith, h, ge, two)); fails = λ h. (x, rw e) }
    ]

send-Appends : (now : Bytes) (fs : List Field) → Appends [] (rendered now fs) (send_record now fs)
unfolding send_record
send-Appends now fs =
    rw (← bind_assoc (json_begin now) (λ a. add_fields a fs) json_end)
      (closing (b'{' ∷ listed (stamp now) fs) (opened now fs) (opened-Appends now fs))

-- A record of fewer than 504 bytes is sent, as the time and the fields in their order in one JSON
-- object on one line; a longer one stops the machine.
pub send_record-rendered :
    (now : Bytes) (fs : List Field)
    → if ltb (length (rendered now fs)) buf_size
      then send_record now fs ≡ ok (rendered now fs)
      else ((x : Fault) × (send_record now fs ≡ panic x))
send_record-rendered now fs =
    let a = send-Appends now fs in
    elim (Bool-cases (ltb (length (rendered now fs)) buf_size)) [
      | inl lt ↦ rw lt (a.fits (ground (arith, lt)))
      | inr ge ↦ rw ge (a.fails (ground (arith, ge)))
    ]
