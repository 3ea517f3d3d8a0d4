-- ===== src/Command.antt =====
-- The words of a command line: `args_new` of source_codes/stardictd/src/daemon.cpp takes a line
-- apart, `arg_escape` of source_codes/stardict-client/src/command.cpp writes one word.
pub mod RoundTrip
use stardictd.Base.{ℕ, List, [], ◌∷◌, ◌++◌, Option, none, some, Bytes, ◌==◌, if◌then◌else◌}

abbrev pub backslash : ℕ
backslash = 92

abbrev pub blank : ℕ
blank = 32

abbrev pub newline : ℕ
newline = 10

-- `buf.c_str()`: what is before the first zero byte.
unfoldable pub c_str : Bytes → Bytes
c_str [] = []
c_str (c ∷ s) = let rest = c_str s in if c == 0 then [] else c ∷ rest

-- The byte that stands for a backslash and `c`.
abbrev pub unescaped : ℕ → ℕ
unescaped c = if c == b'n' then newline else c

-- The loop of `args_new`, from its variables `str` and `args`; `none` is a backslash at the end of
-- the text, behind which the loop goes on past the terminator.
unfoldable pub args_on : Bytes → Bytes → List Bytes → Option (List Bytes)
args_on [] str args = some (args ++ str ∷ [])
args_on (c ∷ []) str args =
    if c == backslash
    then none
    else (if c == blank
        then some ((args ++ str ∷ []) ++ [] ∷ [])
        else some (args ++ (str ++ c ∷ []) ∷ []))
args_on (c ∷ d ∷ s) str args =
    let escape = args_on s (str ++ unescaped d ∷ []) args in
    let next_word = args_on (d ∷ s) [] (args ++ str ∷ []) in
    let same_word = args_on (d ∷ s) (str ++ c ∷ []) args in
    if c == backslash then escape else (if c == blank then next_word else same_word)

unfoldable pub args_new : Bytes → Option (List Bytes)
args_new buf = args_on buf [] []

abbrev pub escaped_byte : ℕ → Bytes
escaped_byte c =
    if c == backslash
    then backslash ∷ backslash ∷ []
    else (if c == blank
        then backslash ∷ blank ∷ []
        else (if c == newline then backslash ∷ b'n' ∷ [] else c ∷ []))

unfoldable pub arg_escape : Bytes → Bytes
arg_escape [] = []
arg_escape (c ∷ arg) = escaped_byte c ++ arg_escape arg
