-- ===== src/Core/CheckOutput.antt =====
-- `parse_check_output` of core/utils.rs: the message in the log of a failed check.
pub mod Messages
use nyanpasu_utils.Prelude.{
  ℕ, ◌+◌, ◌-◌, ◌≡◌, refl, Option, none, some, ◌++◌, [], ◌∷◌, Bytes, codes, length, ltb,
  if◌then◌else◌,
}
use nyanpasu_utils.Text.Search.{find, rfind, slice}

abbrev pub quote : ℕ
quote = 34

-- Where the message of a structured log starts, when `msg=` stands at `m`.
unfoldable pub message_start : Bytes → ℕ → ℕ
unfolding find
message_start log m = elim (find (codes "level=error msg=") log) [ some e ↦ e + 17 | none ↦ m + 5 ]

-- The last slice: what stands between `error=` and `path=`, or the end.
unfoldable pub plain_message : Bytes → Option Bytes
unfolding find slice
plain_message log = elim (find (codes "error=") log) [
  | none ↦ some log
  | some l ↦ elim (find (codes "path=") log) [
    | some r ↦ slice log (l + 6) (r - 1)
    | none ↦ slice log (l + 6) (length log - 1)
  ]
]

-- The structured form, when `time=`, `msg=` and a quotation mark were found.
unfoldable pub structured_message : Bytes → Option ℕ → Option ℕ → Option ℕ → Option Bytes
unfolding message_start plain_message
structured_message log (some t) (some m) (some mr) =
    if ltb m mr then slice log (message_start log m) mr else plain_message log
structured_message log _ _ _ = plain_message log

-- `parse_check_output(log)`; none where it panics. Where `r` is zero, `r - 1` overflows or wraps,
-- and the function panics in both cases, as it does here for a slice that ends at zero.
unfoldable pub parse_check_output : Bytes → Option Bytes
unfolding structured_message
parse_check_output log =
    structured_message log (find (codes "time=") log) (find (codes "msg=") log) (rfind quote log)

structured_runs :
    parse_check_output (codes "time=x level=error msg=" ++ (quote ∷ codes "no rule" ++ quote ∷ []))
    ≡ some (codes "no rule")
unfolding parse_check_output rfind
structured_runs = refl

plain_runs : parse_check_output (codes "error=bad path=/c") ≡ some (codes "bad")
unfolding parse_check_output rfind
plain_runs = refl

panics : parse_check_output (codes "error=") ≡ none
unfolding parse_check_output rfind
panics = refl
