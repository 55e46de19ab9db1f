-- ===== src/System/Act.antt =====
-- Code that calls the operating system and may fail. What was done before an error stays done.
use nyanpasu_utils.Prelude.{◌+◌}
use nyanpasu_utils.Io.{IoError, Result, ok, err}
use nyanpasu_utils.System.World.{World}

abbrev pub Act : Type 0 → Type 0 → Type 0
Act E A = World → Result E A × World

abbrev pub Sys : Type 0 → Type 0
Sys A = Act IoError A

abbrev pub and_then : {E A B : Type 0} → Result E A × World → (A → Act E B) → Result E B × World
and_then (ok a, w) f = f a w
and_then (err e, w) f = (err e, w)

infixl 5 ◌>>=◌ ◌>>◌
abbrev pub ◌>>=◌ : {E A B : Type 0} → Act E A → (A → Act E B) → Act E B
◌>>=◌ m f w = and_then (m w) f

abbrev pub ◌>>◌ : {E B : Type 0} → Act E (Unit {0}) → Act E B → Act E B
m >> k = m >>= λ _. k

abbrev pub pure : {E A : Type 0} → A → Act E A
pure a w = (ok a, w)

-- `result?`
abbrev pub lift : {E A : Type 0} → Result E A → Act E A
lift r w = (r, w)

-- The result as a value, to be matched on.
abbrev pub attempt : {E F A : Type 0} → Act E A → Act F (Result E A)
attempt m w = (ok (m w).0, (m w).1)

abbrev pub map_result : {E F A : Type 0} → (E → F) → Result E A → Result F A
map_result f (ok a) = ok a
map_result f (err e) = err (f e)

-- `action.map_err(f)`
abbrev pub map_err : {E F A : Type 0} → (E → F) → Act E A → Act F A
map_err f m w = (map_result f (m w).0, (m w).1)

abbrev pub tick : World → World
tick w = record w { clock = w.clock + 1 }
