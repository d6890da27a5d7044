-- ===== src/Sysdeps/Locker/Shell.antt =====
-- sd_locker_win32_convert_command of sd-locker_win32.c: a command as one line for a shell.
use coreland_c_string.Base.{
  ℕ, ◌+◌, ◌≤◌, leb, ltb, ◌==◌, ◌≡◌, sym, ap, ◌∙◌, Bool, true, false, Option, none, some, List, [],
  ◌∷◌, ◌++◌, append-nil, append_assoc, Bytes, length, length-append, take, drop, ◌-◌, if◌then◌else◌,
  arith,
}
use mathlib.Core.Option.{map}

-- `SD_LOCKER_WIN32_POSIX_SHELL_PREFIX` and `SD_LOCKER_WIN32_POSIX_SHELL_QUOTE`
abbrev pub shell_prefix : Bytes
shell_prefix = b's' ∷ b'h' ∷ b' ' ∷ b'-' ∷ b'c' ∷ b' ' ∷ b'"' ∷ []

abbrev pub quote : ℕ
quote = 0x27

-- `sizeof (' ')`, the size of an `int`
abbrev pub size_of_space : ℕ
size_of_space = 4

-- The loop that sums up the storage.
unfoldable pub storage : List Bytes → ℕ → ℕ
storage [] length_total = length_total
storage (arg ∷ args) length_total =
    storage args (length_total + (1 + length arg + 1 + size_of_space))

-- What is written behind what the buffer holds; nothing at all for a write past its end.
unfoldable pub write : ℕ → Bytes → Bytes → Option Bytes
write capacity bytes buffer =
    if leb (length buffer + length bytes) capacity then some (buffer ++ bytes) else none

infixl 5 ◌>>=◌
abbrev pub ◌>>=◌ : Option Bytes → (Bytes → Option Bytes) → Option Bytes
none >>= f = none
some a >>= f = f a

-- The loop that copies each argument.
unfoldable pub copy_arguments : ℕ → List Bytes → Bytes → Option Bytes
unfolding write
copy_arguments capacity [] buffer = some buffer
copy_arguments capacity (arg ∷ args) buffer = do
  buffer ← write capacity (quote ∷ []) buffer
  buffer ← write capacity arg buffer
  buffer ← write capacity (quote ∷ []) buffer
  buffer ← write capacity (b' ' ∷ []) buffer
  copy_arguments capacity args buffer

-- An empty block, once an assertion holds.
abbrev asserted : Bool → Option Bytes
asserted true = some []
asserted false = none

-- `sd_locker_win32_convert_command`, where `malloc` gives the block: the bytes written to it, the
-- final NUL included, or nothing for a write past its end or an assertion that fails.
unfoldable pub convert_command : List Bytes → Option Bytes
unfolding storage copy_arguments
convert_command argv = do
  let length_total = storage argv (length shell_prefix + 1)
  buffer ← asserted (ltb (length shell_prefix) length_total)
  buffer ← write length_total shell_prefix buffer
  buffer ← copy_arguments length_total argv buffer
  buffer ← write length_total (b'"' ∷ []) buffer
  write length_total (0 ∷ []) buffer

-- The arguments in quotes, each with a space behind it.
unfoldable pub quoted : List Bytes → Bytes
quoted [] = []
quoted (arg ∷ args) = quote ∷ (arg ++ (quote ∷ b' ' ∷ quoted args))

write-fits :
    (capacity : ℕ) (bytes buffer : Bytes)
    → length buffer + length bytes ≤ capacity
    → write capacity bytes buffer ≡ some (buffer ++ bytes)
unfolding write
write-fits capacity bytes buffer h = ground arith

-- What is left of the block after a write.
write_more :
    (capacity more : ℕ) (bytes buffer : Bytes)
    → length buffer + (length bytes + more) ≤ capacity
    → length (buffer ++ bytes) + more ≤ capacity
write_more capacity more bytes buffer h = omega (arith, length-append buffer bytes)

-- One write, and what follows it.
write_then :
    (capacity more : ℕ) (bytes buffer : Bytes) (f : Bytes → Option Bytes) (r : Option Bytes)
    → length buffer + (length bytes + more) ≤ capacity
    → (length (buffer ++ bytes) + more ≤ capacity → f (buffer ++ bytes) ≡ r)
    → (write capacity bytes buffer >>= f) ≡ r
write_then capacity more bytes buffer f r h after =
    ap (λ o. o >>= f) (write-fits capacity bytes buffer (omega arith))
    ∙ after (write_more capacity more bytes buffer h)

length-quoted :
    (arg : Bytes) (args : List Bytes)
    → length (quoted (arg ∷ args)) ≡ 3 + length arg + length (quoted args)
unfolding quoted
length-quoted arg args = omega (arith, length-append arg (quote ∷ b' ' ∷ quoted args))

joined :
    (buffer arg rest : Bytes)
    → ((((buffer ++ (quote ∷ [])) ++ arg) ++ (quote ∷ [])) ++ (b' ' ∷ [])) ++ rest
      ≡ buffer ++ (quote ∷ (arg ++ (quote ∷ b' ' ∷ rest)))
joined buffer arg rest = simp (append_assoc)

copy-quoted :
    (capacity : ℕ) (args : List Bytes) (buffer : Bytes)
    → length buffer + length (quoted args) ≤ capacity
    → copy_arguments capacity args buffer ≡ some (buffer ++ quoted args)
unfolding copy_arguments quoted
copy-quoted capacity [] buffer h = ap some (sym (append-nil buffer))
copy-quoted capacity (arg ∷ args) buffer h =
    let all = length-quoted arg args in
    let rest = length (quoted args) in
    write_then capacity (length arg + (1 + (1 + rest))) (quote ∷ []) buffer _ _ (omega arith) (λ h.
      write_then capacity (1 + (1 + rest)) arg _ _ _ h (λ h.
        write_then capacity (1 + rest) (quote ∷ []) _ _ _ h (λ h.
          write_then capacity rest (b' ' ∷ []) _ _ _ h
            (λ h. copy-quoted capacity args _ h ∙ ap some (joined buffer arg (quoted args))))))

storage-quoted :
    (args : List Bytes) (n : ℕ)
    → storage args n ≡ n + length (quoted args) + (length args + length args + length args)
unfolding storage quoted
storage-quoted [] n = omega arith
storage-quoted (arg ∷ args) n =
    omega (
      arith,
      storage-quoted args (n + (1 + length arg + 1 + size_of_space)),
      length-quoted arg args,
    )

-- A block that is large enough is filled.
filled :
    (capacity : ℕ) (argv : List Bytes)
    → 9 + length (quoted argv) ≤ capacity
    → (write capacity shell_prefix [] >>= (λ buffer.
        copy_arguments capacity argv buffer >>= (λ buffer.
          write capacity (b'"' ∷ []) buffer >>= (λ buffer. write capacity (0 ∷ []) buffer))))
      ≡ some (((shell_prefix ++ quoted argv) ++ (b'"' ∷ [])) ++ (0 ∷ []))
filled capacity argv room =
    write_then capacity (length (quoted argv) + 2) shell_prefix [] _ _ (omega arith) (λ h.
      let size = length-append shell_prefix (quoted argv) in
      ap
        (λ o. o >>= λ buffer.
          write capacity (b'"' ∷ []) buffer >>= λ buffer. write capacity (0 ∷ []) buffer)
        (copy-quoted capacity argv shell_prefix (omega arith))
      ∙ write_then capacity 1 (b'"' ∷ []) (shell_prefix ++ quoted argv) _ _ (omega arith)
          (λ h. write-fits capacity (0 ∷ []) ((shell_prefix ++ quoted argv) ++ (b'"' ∷ [])) h))

-- The line for a command is "sh -c" with each argument in quotes and a space behind it, all in
-- double quotes, and the final NUL: for a command of at least one word no write leaves the block
-- that was allocated, and no assertion fails.
pub convert_command-quoted :
    (command : Bytes) (arguments : List Bytes)
    → convert_command (command ∷ arguments)
      ≡ some (((shell_prefix ++ quoted (command ∷ arguments)) ++ (b'"' ∷ [])) ++ (0 ∷ []))
unfolding convert_command
convert_command-quoted command arguments =
    let argv = command ∷ arguments in
    let total = storage-quoted argv 8 in
    let more : ltb 7 (storage argv 8) ≡ true = ground arith in
    rw (more) (filled (storage argv 8) argv (omega arith))

-- Where a shell stands in a line: between words, in a word, or in a word between single quotes.
pub data Reading : Type 0 where
  between : Reading
  in_word in_quotes : Bytes → Reading

-- The words of a line, as a shell reads it: a blank ends a word outside of quotes, a quote begins
-- or ends a quotation inside of a word, and any other character is a part of the word. There are
-- none where a quotation has no end.
unfoldable pub words : Reading → Bytes → Option (List Bytes)
words between [] = some []
words (in_word word) [] = some (word ∷ [])
words (in_quotes word) [] = none
words between (c ∷ cs) =
    let at_quote = words (in_quotes []) cs in
    let at_blank = words between cs in
    let at_other = words (in_word (c ∷ [])) cs in
    if c == quote then at_quote else if c == b' ' then at_blank else at_other
words (in_word word) (c ∷ cs) =
    let at_quote = words (in_quotes word) cs in
    let at_blank = map (λ more. word ∷ more) (words between cs) in
    let at_other = words (in_word (word ++ (c ∷ []))) cs in
    if c == quote then at_quote else if c == b' ' then at_blank else at_other
words (in_quotes word) (c ∷ cs) =
    let at_quote = words (in_word word) cs in
    let at_other = words (in_quotes (word ++ (c ∷ []))) cs in
    if c == quote then at_quote else at_other

-- What stands between the double quotes behind "sh -c".
unfoldable pub script : Bytes → Bytes
script line = take (length line - 9) (drop 7 line)

-- No character of the text is a quote.
unfoldable pub has_quote : Bytes → Bool
has_quote [] = false
has_quote (c ∷ cs) = if c == quote then true else has_quote cs

unfoldable pub have_quote : List Bytes → Bool
have_quote [] = false
have_quote (arg ∷ args) = if has_quote arg then true else have_quote args
