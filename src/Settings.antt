-- ===== src/Settings.antt =====
-- The class `option` of include/avhttp/settings.hpp: the options of a request or of a response, in
-- the order in which they were added. A key may be there several times.
pub mod Find
pub mod Header
mod Tests
use mathlib.Core.List.{map}
use avhttp.Base.{
  ℕ, ◌+◌, Bool, true, false, Option, none, some, List, [], ◌∷◌, ◌++◌, if◌then◌else◌, Bytes, codes,
  text_eq, length,
}
use avhttp.CStdlib.{to_lower}

abbrev pub OptionItemList : Type 0
OptionItemList = List (Bytes × Bytes)

pub record Options : Type 0 where
  pub m_opts : OptionItemList
  pub m_fake_continue : Bool

pub option : Options
option = record { m_opts = []; m_fake_continue = false }

unfoldable pub insert : Bytes → Bytes → Options → Options
insert key val o = record o { m_opts = o.m_opts ++ (key, val) ∷ [] }

-- The first entry whose key is equal goes.
unfoldable pub remove_first : Bytes → OptionItemList → OptionItemList
remove_first key [] = []
remove_first key ((k, v) ∷ opts) =
    let rest = remove_first key opts in if text_eq k key then opts else (k, v) ∷ rest

unfoldable pub remove : Bytes → Options → Options
unfolding remove_first
remove key o = record o { m_opts = remove_first key o.m_opts }

-- `boost::to_lower`
unfoldable pub lowered : Bytes → Bytes
unfolding to_lower
lowered s = map to_lower s

-- The loop of `find`, for a key in lower case.
unfoldable pub find_loop : Bytes → OptionItemList → Option Bytes
unfolding lowered
find_loop s [] = none
find_loop s ((k, v) ∷ opts) =
    let rest = find_loop s opts in if text_eq (lowered k) s then some v else rest

-- `none` is a `false` that leaves `val` alone.
unfoldable pub find : Bytes → Options → Option Bytes
unfolding find_loop lowered
find key o = find_loop (lowered key) o.m_opts

abbrev pub or_empty : Option Bytes → Bytes
or_empty none = []
or_empty (some v) = v

-- The overload that returns the value.
pub find_value : Bytes → Options → Bytes
unfolding find
find_value key o = or_empty (find key o)

abbrev pub status_code : Bytes
status_code = codes "_status_code"

-- The loop of `header_string`.
pub header_loop : OptionItemList → Bytes → Bytes
header_loop [] str = str
header_loop ((k, v) ∷ opts) str =
    let next = header_loop opts (str ++ (k ++ (codes ": " ++ (v ++ codes "\r\n")))) in
    let skip = header_loop opts str in if text_eq k status_code then skip else next

pub header_string : Options → Bytes
unfolding header_loop
header_string o = header_loop o.m_opts []

pub clear : Options → Options
clear o = record o { m_opts = [] }

pub size : Options → ℕ
size o = length o.m_opts
