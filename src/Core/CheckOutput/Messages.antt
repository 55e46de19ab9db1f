-- ===== src/Core/CheckOutput/Messages.antt =====
-- `parse_check_output` of core/utils.rs: the messages of the log formats it knows.
use nyanpasu_utils.Prelude.{
  ℕ, ◌+◌, ◌-◌, ◌≤◌, ◌<◌, ◌≡◌, refl, sym, ap, ◌∙◌, Option, none, some, [], ◌∷◌, ◌++◌, Bytes, codes,
  append_assoc, length, length-append, arith, lt→ltb, true, Option-cases, inl, inr,
}
use nyanpasu_utils.Text.Search.{find, rfind, slice}
use nyanpasu_utils.Text.Search.Laws.{
  find_first, find_before, rfind_last, slice_middle, at_boundary-append, find-le-length,
}
use nyanpasu_utils.Text.Lines.Laws.{Lacks}
use nyanpasu_utils.Text.Utf8.{is_utf8}
use nyanpasu_utils.Core.CheckOutput.{
  quote, message_start, plain_message, structured_message, parse_check_output,
}

-- A text between quotation marks that ends at the last one of the log.
quoted_lem :
    (log pre msg post : Bytes) (t m : ℕ)
    → log ≡ pre ++ (msg ++ quote ∷ post)
    → find (codes "time=") log ≡ some t
    → find (codes "msg=") log ≡ some m
    → m < length pre
    → message_start log m ≡ length pre
    → Lacks quote post
    → is_utf8 msg ≡ true
    → parse_check_output log ≡ some msg
unfolding parse_check_output
quoted_lem log pre msg post t m shape ht hm lt start lacks utf8 =
    rw (ht, hm, last)
      (rw (lt→ltb m (length pre + length msg) (omega arith), start)
        (ap (λ s. slice s (length pre) (length pre + length msg)) shape
          ∙ slice_middle pre msg (quote ∷ post) (at_boundary-append msg (quote ∷ post) utf8 refl)
              refl))
  where
    last : rfind quote log ≡ some (length pre + length msg)
    last =
        ap (rfind quote) (shape ∙ sym (append_assoc pre msg (quote ∷ post)))
        ∙ rfind_last quote (pre ++ msg) post lacks
        ∙ ap some (length-append pre msg)

-- A line of a structured log that tells an error.
abbrev pub error_line : Bytes → Bytes → Bytes → Bytes
error_line stamp msg post =
    codes "time=" ++ (stamp ++ (codes "level=error msg=" ++ (quote ∷ (msg ++ quote ∷ post))))

abbrev line_start : Bytes → Bytes
line_start stamp = codes "time=" ++ stamp

line_shape :
    (stamp msg post : Bytes)
    → error_line stamp msg post
      ≡ (line_start stamp ++ (codes "level=error msg=" ++ quote ∷ [])) ++ (msg ++ quote ∷ post)
line_shape stamp msg post =
    sym (
      append_assoc (line_start stamp) (codes "level=error msg=" ++ quote ∷ [])
        (msg ++ quote ∷ post))

message_start_at :
    (log : Bytes) (m e : ℕ)
    → find (codes "level=error msg=") log ≡ some e
    → message_start log m ≡ e + 17
unfolding message_start
message_start_at log m e h = rw (h, message_start) refl

-- Where `msg=` is found: before the message.
msg_found :
    (stamp rest : Bytes)
    → (m : ℕ) × (find (codes "msg=") (line_start stamp ++ (codes "level=error msg=" ++ rest))
        ≡ some m)
      × (m ≤ length (line_start stamp) + 12)
msg_found stamp rest =
    let (m, e, le) =
      find_before b'm' (codes "sg=") (line_start stamp ++ codes "level=error ") rest in
    (
      m,
      ap (find (codes "msg="))
            (sym (append_assoc (line_start stamp) (codes "level=error ") (codes "msg=" ++ rest)))
          ∙ e,
      omega (arith, length-append (line_start stamp) (codes "level=error ")),
    )

-- The message of an error in a structured log is found, whatever it holds and whatever stands
-- behind it, when the time stamp has no letter l and no quotation mark stands behind the message.
pub error_line_message :
    (stamp msg post : Bytes)
    → Lacks b'l' stamp
    → Lacks quote post
    → is_utf8 msg ≡ true
    → parse_check_output (error_line stamp msg post) ≡ some msg
error_line_message stamp msg post hs hp utf8 =
    let (m, e, le) = msg_found stamp (quote ∷ (msg ++ quote ∷ post)) in
    quoted_lem (error_line stamp msg post)
      (line_start stamp ++ (codes "level=error msg=" ++ quote ∷ [])) msg post 0 m
      (line_shape stamp msg post) time_found e
      (omega (arith, length-append (line_start stamp) (codes "level=error msg=" ++ quote ∷ [])))
      (start m) hp utf8
  where
    time_found : find (codes "time=") (error_line stamp msg post) ≡ some 0
    time_found = unfold find in refl

    start :
        (m : ℕ)
        → message_start (error_line stamp msg post) m
          ≡ length (line_start stamp ++ (codes "level=error msg=" ++ quote ∷ []))
    start m =
        message_start_at _ m _ (
          find_first b'l' (codes "evel=error msg=") (line_start stamp)
            (quote ∷ (msg ++ quote ∷ post)) (refl, (refl, (refl, (refl, (refl, hs))))))
        ∙ (omega (arith, length-append (line_start stamp) (codes "level=error msg=" ++ quote ∷ [])))

-- The text before `path=` of a plain log.
abbrev pub plain_line : Bytes → Bytes → Bytes → Bytes
plain_line pre msg post = pre ++ (codes "error=" ++ (msg ++ (b' ' ∷ codes "path=" ++ post)))

plain_at :
    (log : Bytes) (l r : ℕ)
    → find (codes "error=") log ≡ some l
    → find (codes "path=") log ≡ some r
    → plain_message log ≡ slice log (l + 6) (r - 1)
unfolding plain_message
plain_at log l r h k = rw (h, k, plain_message) refl

plain_to_end :
    (log : Bytes) (l : ℕ)
    → find (codes "error=") log ≡ some l
    → find (codes "path=") log ≡ none
    → plain_message log ≡ slice log (l + 6) (length log - 1)
unfolding plain_message
plain_to_end log l h k = rw (h, k, plain_message) refl

slice_backwards : (s : Bytes) (start end : ℕ) → end < start → slice s start end ≡ none
unfolding slice
slice_backwards s start end h = ground arith

no_msg : (log : Bytes) (t r : Option ℕ) → structured_message log t none r ≡ plain_message log
unfolding structured_message
no_msg log none r = refl
no_msg log (some t) r = refl

unstructured :
    (log : Bytes) → find (codes "msg=") log ≡ none → parse_check_output log ≡ plain_message log
unfolding parse_check_output
unstructured log h =
    rw (h, parse_check_output) (no_msg log (find (codes "time=") log) (rfind quote log))

slice_eq : (s s' : Bytes) (a a' b b' : ℕ) → s ≡ s' → a ≡ a' → b ≡ b' → slice s a b ≡ slice s' a' b'
slice_eq s s' a a' b b' p q r = cc

-- In a log with no `msg=`, the text between the first `error=` and a space with `path=` behind it is
-- found, when no letter e stands before it, and no letter p before `path=`.
pub plain_line_message :
    (pre msg post : Bytes)
    → find (codes "msg=") (plain_line pre msg post) ≡ none
    → Lacks b'e' pre
    → Lacks b'p' (pre ++ (codes "error=" ++ (msg ++ b' ' ∷ [])))
    → is_utf8 msg ≡ true
    → parse_check_output (plain_line pre msg post) ≡ some msg
plain_line_message pre msg post h he hp utf8 =
    unstructured _ h
    ∙ plain_at (plain_line pre msg post) (length pre)
        (length (pre ++ (codes "error=" ++ (msg ++ b' ' ∷ []))))
        (find_first b'e' (codes "rror=") pre (msg ++ (b' ' ∷ codes "path=" ++ post)) he)
        (ap (find (codes "path=")) shape
          ∙ find_first b'p' (codes "ath=") (pre ++ (codes "error=" ++ (msg ++ b' ' ∷ []))) post hp)
    ∙ slice_eq _ _ _ _ _ _
        (sym (append_assoc pre (codes "error=") (msg ++ (b' ' ∷ codes "path=" ++ post))))
        (omega (arith, length-append pre (codes "error=")))
        (omega (
          arith,
          length-append pre (codes "error="),
          length-append pre (codes "error=" ++ (msg ++ b' ' ∷ [])),
          length-append msg (b' ' ∷ []),
        ))
    ∙ slice_middle (pre ++ codes "error=") msg (b' ' ∷ codes "path=" ++ post)
        (at_boundary-append msg (b' ' ∷ codes "path=" ++ post) utf8 refl) refl
  where
    shape :
        plain_line pre msg post
        ≡ (pre ++ (codes "error=" ++ (msg ++ b' ' ∷ []))) ++ (codes "path=" ++ post)
    shape =
        ap (λ t. pre ++ (codes "error=" ++ t))
          (sym (append_assoc msg (b' ' ∷ []) (codes "path=" ++ post)))
        ∙ sym (append_assoc pre (codes "error=" ++ (msg ++ b' ' ∷ [])) (codes "path=" ++ post))

-- A log with no `msg=` that ends at its first `error=` makes the function panic, when no letter e
-- stands before it.
pub ends_at_error-panics :
    (pre : Bytes)
    → find (codes "msg=") (pre ++ codes "error=") ≡ none
    → Lacks b'e' pre
    → parse_check_output (pre ++ codes "error=") ≡ none
ends_at_error-panics pre h he =
    unstructured _ h ∙ elim (Option-cases (find (codes "path=") (pre ++ codes "error="))) [
      | inl k ↦
          plain_to_end (pre ++ codes "error=") (length pre) found k
          ∙ slice_backwards (pre ++ codes "error=") (length pre + 6)
              (length (pre ++ codes "error=") - 1)
              (omega (arith, length-append pre (codes "error=")))
      | inr (r, k) ↦
          plain_at (pre ++ codes "error=") (length pre) r found k
          ∙ slice_backwards (pre ++ codes "error=") (length pre + 6) (r - 1) (
              omega (
                arith,
                length-append pre (codes "error="),
                find-le-length (codes "path=") (pre ++ codes "error=") r k,
              ))
    ]
  where
    found : find (codes "error=") (pre ++ codes "error=") ≡ some (length pre)
    found = find_first b'e' (codes "rror=") pre [] he
