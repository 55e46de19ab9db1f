-- ===== src/PidFile/Identity/Laws.antt =====
-- The process identity of process/pid_file.rs: `/proc` and the start time.
use nyanpasu_utils.Prelude.{
  ℕ, ◌^◌, ◌<◌, ◌≡◌, refl, some, List, [], ◌∷◌, ◌++◌, Bytes, All, All-append, get_elem?, arith,
}
use nyanpasu_utils.Io.{ok}
use nyanpasu_utils.Text.Decimal.{decimal}
use nyanpasu_utils.Text.Decimal.RoundTrip.{parse_uint-decimal}
use nyanpasu_utils.Text.Lines.{join}
use nyanpasu_utils.Text.Lines.Laws.{Lacks}
use nyanpasu_utils.Text.Words.{trim}
use nyanpasu_utils.Text.Words.Laws.{IsWord, split_whitespace-join, after_last-append}
use nyanpasu_utils.System.World.{ProcReads}
use nyanpasu_utils.PidFile.Record.{ProcessIdentity}
use nyanpasu_utils.PidFile.Identity.{
  ticks_of_stat, linux_start_ticks, boot_bound_start_token, executable_name, identity_of,
}

-- Field 22 of the line, the twentieth behind the command's name, is found whatever the name holds,
-- parentheses and white space included, when the fields behind the name are words of visible
-- characters with one space before each and no closing parenthesis, a newline ends the line, and the
-- field is a number of 64 bits.
pub ticks_of_stat_lem :
    (before : Bytes) (w : Bytes) (ws : List Bytes) (ticks : ℕ)
    → All IsWord (w ∷ ws)
    → Lacks b')' (join b' ' (w ∷ ws))
    → get_elem? (w ∷ ws) 19 ≡ some (decimal ticks)
    → ticks < 2 ^ 64
    → ticks_of_stat (before ++ b')' ∷ b' ' ∷ (join b' ' (w ∷ ws) ++ 10 ∷ [])) ≡ ok ticks
unfolding ticks_of_stat
ticks_of_stat_lem before w ws ticks words last at lt = ground (
  arith,
  after_last-append b')' before (b' ' ∷ (join b' ' (w ∷ ws) ++ 10 ∷ [])) lacking,
  split_whitespace-join w ws words,
  parse_uint-decimal (2 ^ 64) ticks lt,
)
  where
    lacking : Lacks b')' (b' ' ∷ (join b' ' (w ∷ ws) ++ 10 ∷ []))
    lacking = (refl, All-append _ (join b' ' (w ∷ ws)) (10 ∷ []) last (refl, tt))

-- An identity comes from two equal readings of the start time around the reading of the executable's
-- name; a process that was replaced in between has none.
pub identity_stable :
    (reads : ProcReads) (i : ProcessIdentity)
    → identity_of reads ≡ ok (some i)
    → (ticks : ℕ) × (path boot : Bytes) × (linux_start_ticks reads.first_stat ≡ ok (some ticks))
      × (linux_start_ticks reads.second_stat ≡ ok (some ticks))
      × (reads.exe_link ≡ ok path)
      × (executable_name path ≡ ok i.executable)
      × (reads.boot_id ≡ ok boot)
      × (i.start_token ≡ boot_bound_start_token (trim boot) ticks)
unfolding identity_of
identity_stable reads i h = ground arith
