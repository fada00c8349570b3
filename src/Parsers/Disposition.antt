-- ===== src/Parsers/Disposition.antt =====
-- `content_disposition_filename` of include/avhttp/detail/parsers.hpp: the file name in a
-- `Content-Disposition` header.
pub mod Filename
mod Tests
use avhttp.Base.{
  ℕ, Bool, true, false, not, ◌&&◌, ◌||◌, [], ◌∷◌, ◌++◌, ◌==◌, if◌then◌else◌, Bytes, codes, text_eq,
}
use avhttp.Escape.{is_char, is_tspecial}

pub data DispositionState : Type 0 where
  parse_key_start parse_key parse_value_start parse_value parse_fail : DispositionState

-- The locals, and the reference to the result.
pub record Disposition : Type 0 where
  pub state : DispositionState
  pub name : Bytes
  pub value : Bytes
  pub filename : Bytes

-- `c == ';' || c == '\"' || c == '\''`
abbrev pub is_quote : ℕ → Bool
is_quote c = c == b';' || c == b'"' || c == 39

pub step_in : DispositionState → Disposition → ℕ → Disposition
step_in parse_key_start p c =
    if c == b' '
    then p
    else if is_char c
    then record p { name = p.name ++ c ∷ []; state = parse_key }
    else record p { state = parse_fail }
step_in parse_key p c =
    if c == b';'
    then record p { name = []; state = parse_key_start }
    else if c == b'='
    then record p { value = []; state = parse_value_start }
    else if is_tspecial c || c == b':'
    then record p { name = []; state = parse_key_start }
    else if is_char c || c == b'_'
    then record p { name = p.name ++ c ∷ [] }
    else p
step_in parse_value_start p c =
    if is_quote c
    then p
    else if is_char c
    then record p { value = p.value ++ c ∷ []; state = parse_value }
    else record p { state = parse_fail }
step_in parse_value p c =
    if is_quote c
    then record p {
      filename = if text_eq p.name (codes "filename") then p.value else p.filename;
      state = parse_key_start;
    }
    else if is_char c
    then record p { value = p.value ++ c ∷ [] }
    else record p { state = parse_fail }
step_in parse_fail p c = p

pub run : Disposition → Bytes → Disposition
unfolding step_in
run p [] = p
run p (c ∷ s) = let next = run (step_in p.state p c) s in elim p.state [ parse_fail ↦ p | _ ↦ next ]

abbrev pub is_empty : Bytes → Bool
is_empty [] = true
is_empty (c ∷ s) = false

-- Behind the loop: the result, and `filename`.
pub finish : Disposition → Bool × Bytes
finish p =
    let filename =
      if text_eq p.name (codes "filename") && not (is_empty p.value) then p.value else p.filename in
    (not (is_empty filename), filename)

pub content_disposition_filename : Bytes → Bytes → Bool × Bytes
unfolding run finish
content_disposition_filename s filename =
    finish (run (record { state = parse_key_start; name = []; value = []; filename = filename }) s)
