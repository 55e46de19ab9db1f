-- ===== src/Io/ReadLine.antt =====
-- `read_line` of io/mod.rs, over a buffered reader whose `fill_buf` answers are a list.
pub mod Laws
pub mod Counts
use nyanpasu_utils.Prelude.{
  ℕ, suc, ◌+◌, ◌≡◌, refl, Bool, true, false, Option, none, some, List, [], ◌∷◌, ◌++◌, Bytes, codes,
  length, take, drop, ◌==◌, if◌then◌else◌,
}
use nyanpasu_utils.Io.{IoError, Result, ok, err}
use nyanpasu_utils.Text.Lines.{lf, cr}

-- What the reader behind the buffer gives when it is asked: bytes, one at least; an interruption;
-- or an error. At the end of the list is the end of the stream.
pub data Answer : Type 0 where
  filled : ℕ → Bytes → Answer
  interrupted : Answer
  failed : IoError → Answer

-- `BufRead`: the bytes that are buffered and not consumed, and the answers to come.
pub record Reader : Type 0 where
  pub buffered : Bytes
  pub answers : List Answer

-- `memchr::memchr(needle, haystack)`
unfoldable pub memchr : ℕ → Bytes → Option ℕ
memchr c [] = none
memchr c (b ∷ s) =
    if b == c then some 0 else elim (memchr c s) [ none ↦ none | some i ↦ some (suc i) ]

-- What one round takes of the bytes that are available, and whether a line ends there.
unfoldable pub split_available : Bytes → Bool × ℕ
unfolding memchr
split_available available = elim (memchr lf available) [
  | some i ↦ (true, i + 1)
  | none ↦ elim (memchr cr available) [ some i ↦ (true, i + 1) | none ↦ (false, length available) ]
]

-- The result, the buffer `buf`, and the reader afterwards.
pub record LineRead : Type 0 where
  pub result : Result IoError ℕ
  pub buf : Bytes
  pub reader : Reader

abbrev pub line_ends : Bytes → Bytes → ℕ → List Answer → LineRead
line_ends buf available read rest =
    let used = (split_available available).1 in
    record {
      result = ok (read + used);
      buf = buf ++ take used available;
      reader = record { buffered = drop used available; answers = rest };
    }

-- The loop, when so many bytes were read: first with an empty buffer.
unfoldable pub refill : List Answer → Bytes → ℕ → LineRead
unfolding split_available
refill [] buf read = record {
  result = ok read;
  buf = buf;
  reader = record { buffered = []; answers = [] };
}
refill (failed e ∷ rest) buf read = record {
  result = err e;
  buf = buf;
  reader = record { buffered = []; answers = rest };
}
refill (interrupted ∷ rest) buf read = refill rest buf read
refill (filled b s ∷ rest) buf read =
    let more = refill rest (buf ++ b ∷ s) (read + length (b ∷ s)) in
    if (split_available (b ∷ s)).0 then line_ends buf (b ∷ s) read rest else more

-- The loop, with what is buffered at its start.
unfoldable pub read_from : Bytes → List Answer → Bytes → LineRead
unfolding refill
read_from [] answers buf = refill answers buf 0
read_from (b ∷ s) answers buf =
    let more = refill answers (buf ++ b ∷ s) (0 + length (b ∷ s)) in
    if (split_available (b ∷ s)).0 then line_ends buf (b ∷ s) 0 answers else more

-- `read_line(r, buf)`
unfoldable pub read_line : Reader → Bytes → LineRead
unfolding read_from
read_line r buf = read_from r.buffered r.answers buf
