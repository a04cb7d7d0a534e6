-- ===== src/Usize.antt =====
-- `usize` on a machine of 64 bits, and what the source calls on it.
use futures_rs.Prelude.{ℕ, ◌+◌, ◌≤◌, Option, none, some, Bool, true, false, ltb, if◌then◌else◌}

abbrev pub usize_mod : ℕ
usize_mod = 0x1_0000_0000_0000_0000

abbrev pub usize_max : ℕ
usize_max = 0xffff_ffff_ffff_ffff

abbrev pub checked_add : ℕ → ℕ → Option ℕ
checked_add a b = if ltb (a + b) usize_mod then some (a + b) else none

abbrev pub saturating_add : ℕ → ℕ → ℕ
saturating_add a b = if ltb (a + b) usize_mod then a + b else usize_max

-- `match upper { Some(x) => x.checked_add(n), None => None }`
abbrev pub upper_add : Option ℕ → ℕ → Option ℕ
upper_add none n = none
upper_add (some x) n = checked_add x n

-- What `size_hint` promises: the number of items lies within the bounds.
abbrev pub Within : ℕ × Option ℕ → ℕ → Type 0
Within (lower, none) n = (lower ≤ n) × Unit {0}
Within (lower, some upper) n = (lower ≤ n) × (n ≤ upper)

-- `usize::from`
abbrev pub from_bool : Bool → ℕ
from_bool true = 1
from_bool false = 0
