-- ===== src/Parsers/StatusLine.antt =====
-- `parse_http_status_line` of include/avhttp/detail/parsers.hpp: a machine over the characters of
-- `HTTP/1.1 200 OK\r\n`. The numbers are `int` in the source; here each is the natural number that
-- its 32 bits spell, and wraps around.
mod Numbers
pub mod Language
mod Tests
use avhttp.Base.{
  ℕ, ◌+◌, ◌-◌, ◌*◌, ◌%◌, ◌^◌, Bool, true, false, [], ◌∷◌, ◌++◌, ◌==◌, if◌then◌else◌, Bytes,
}
use avhttp.Escape.{is_digit, is_ctl}

pub data StatusState : Type 0 where
  http_version_h http_version_t_1 http_version_t_2 http_version_p http_version_slash : StatusState
  http_version_major_start http_version_major : StatusState
  http_version_minor_start http_version_minor : StatusState
  status_code_start status_code reason_phrase linefeed fail : StatusState

-- The locals, and the references to the results.
pub record StatusLine : Type 0 where
  pub state : StatusState
  pub version_major : ℕ
  pub version_minor : ℕ
  pub status : ℕ
  pub reason : Bytes

abbrev pub expect : ℕ → StatusState → StatusLine → ℕ → StatusLine
expect letter next p c = record p { state = if c == letter then next else fail }

-- `n * 10 + c - '0'`, in 32 bits
abbrev pub shift_in : ℕ → ℕ → ℕ
shift_in n c = (n * 10 + c - b'0') % 2 ^ 32

-- The cases of the `switch` but `linefeed` and the default, which return.
pub step_in : StatusState → StatusLine → ℕ → StatusLine
step_in http_version_h p c = expect b'H' http_version_t_1 p c
step_in http_version_t_1 p c = expect b'T' http_version_t_2 p c
step_in http_version_t_2 p c = expect b'T' http_version_p p c
step_in http_version_p p c = expect b'P' http_version_slash p c
step_in http_version_slash p c = expect b'/' http_version_major_start p c
step_in http_version_major_start p c =
    if is_digit c
    then record p { version_major = shift_in p.version_major c; state = http_version_major }
    else record p { state = fail }
step_in http_version_major p c =
    if c == b'.'
    then record p { state = http_version_minor_start }
    else if is_digit c
    then record p { version_major = shift_in p.version_major c }
    else record p { state = fail }
step_in http_version_minor_start p c =
    if is_digit c
    then record p { version_minor = shift_in p.version_minor c; state = http_version_minor }
    else record p { state = fail }
step_in http_version_minor p c =
    if c == b' '
    then record p { state = status_code_start }
    else if is_digit c
    then record p { version_minor = shift_in p.version_minor c }
    else record p { state = fail }
step_in status_code_start p c =
    if is_digit c
    then record p { status = shift_in p.status c; state = status_code }
    else record p { state = fail }
step_in status_code p c =
    if c == b' '
    then record p { state = reason_phrase }
    else if is_digit c
    then record p { status = shift_in p.status c }
    else record p { state = fail }
step_in reason_phrase p c =
    if c == b'\r'
    then record p { state = linefeed }
    else if is_ctl c
    then record p { state = fail }
    else record p { reason = p.reason ++ c ∷ [] }
step_in linefeed p c = p
step_in fail p c = p

-- The loop: what is returned, and the locals at that time. The state is the first argument, with
-- the test of the loop and the two returns inside it.
pub run : StatusLine → Bytes → Bool × StatusLine
unfolding step_in
run p [] = (false, p)
run p (c ∷ s) =
    let next = run (step_in p.state p c) s in
    elim p.state [ fail ↦ (false, p) | linefeed ↦ (c == b'\n', p) | _ ↦ next ]

abbrev pub start : ℕ → ℕ → ℕ → StatusLine
start version_major version_minor status = record {
  state = http_version_h;
  version_major = version_major;
  version_minor = version_minor;
  status = status;
  reason = [];
}

pub parse_http_status_line : Bytes → ℕ → ℕ → ℕ → Bool × StatusLine
unfolding run
parse_http_status_line s version_major version_minor status =
    run (start version_major version_minor status) s
