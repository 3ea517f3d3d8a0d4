-- ===== src/Command/RoundTrip.antt =====
-- The words that the client escapes are the words that the server finds
-- (source_codes/stardictd/src/daemon.cpp, source_codes/stardict-client/src/command.cpp).
use stardictd.Base.{
  ℕ, suc, ◌≤◌, List, [], ◌∷◌, ◌++◌, append_assoc, append-nil, ◌≡◌, ◌≢◌, refl, arith, Bytes, false,
  length, All, All-append, some,
}
use stardictd.Net.{line_limit, net_read_line}
use stardictd.Net.Lines.{net_read_line-line}
use stardictd.Command.{c_str, args_on, args_new, arg_escape, escaped_byte, blank, newline}

-- The words with a blank between them.
abbrev pub joined : Bytes → List Bytes → Bytes
joined arg [] = arg_escape arg
joined arg (next ∷ args) = arg_escape arg ++ blank ∷ joined next args

args_on_byte :
    (c : ℕ) (s str : Bytes) (args : List Bytes)
    → args_on (escaped_byte c ++ s) str args ≡ args_on s (str ++ c ∷ []) args
unfolding args_on
args_on_byte c [] str args = ground arith
args_on_byte c (d ∷ s) str args = ground arith

args_on_word :
    (arg s str : Bytes) (args : List Bytes)
    → args_on (arg_escape arg ++ s) str args ≡ args_on s (str ++ arg) args
unfolding arg_escape
args_on_word [] s str args = rw append-nil
args_on_word (c ∷ arg) s str args = simp (append_assoc, args_on_byte, args_on_word arg)

args_on-blank :
    (s str : Bytes) (args : List Bytes)
    → args_on (blank ∷ s) str args ≡ args_on s [] (args ++ str ∷ [])
unfolding args_on
args_on-blank [] str args = refl
args_on-blank (d ∷ s) str args = refl

args_on-joined :
    (arg : Bytes) (rest : List Bytes) (args : List Bytes)
    → args_on (joined arg rest) [] args ≡ some (args ++ arg ∷ rest)
args_on-joined arg [] args =
    rw (← append-nil (arg_escape arg), args_on_word arg [] [] args) (unfold args_on in refl)
args_on-joined arg (next ∷ rest) args =
    simp (args_on_word, args_on-blank, args_on-joined next rest (args ++ arg ∷ []), append_assoc)

-- A byte that a C string can hold and that `net_read_line` does not drop.
abbrev pub IsSendable : ℕ → Type 0
IsSendable c = (c ≢ 0) × (c ≢ 13)

abbrev IsInLine : ℕ → Type 0
IsInLine c = (c ≢ 0) × (c ≢ 10) × (c ≢ 13)

arg_escape-IsInLine : (arg : Bytes) → All IsSendable arg → All IsInLine (arg_escape arg)
unfolding arg_escape
arg_escape-IsInLine [] h = tt
arg_escape-IsInLine (c ∷ arg) h =
    All-append IsInLine (escaped_byte c) (arg_escape arg) (ground arith)
      (arg_escape-IsInLine arg h.1)

joined-IsInLine :
    (arg : Bytes) (rest : List Bytes)
    → All (All IsSendable) (arg ∷ rest)
    → All IsInLine (joined arg rest)
joined-IsInLine arg [] h = arg_escape-IsInLine arg h.0
joined-IsInLine arg (next ∷ rest) h =
    All-append IsInLine (arg_escape arg) (blank ∷ joined next rest) (arg_escape-IsInLine arg h.0)
      (ground arith, joined-IsInLine next rest h.1)

c_str-same : (s : Bytes) → All IsInLine s → c_str s ≡ s
unfolding c_str
c_str-same [] h = refl
c_str-same (c ∷ s) h = ground (arith, c_str-same s h.1)

weaken : {P Q : ℕ → Type 0} (f : (c : ℕ) → P c → Q c) (s : Bytes) → All P s → All Q s
weaken f [] h = tt
weaken f (c ∷ s) h = (f c h.0, weaken f s h.1)

-- When no word holds a zero byte or a carriage return and the escaped words, with blanks between
-- them and the newline behind, are at most 10240 bytes: the server reads that line whatever comes
-- behind it, and takes it apart into the same words, blanks, newlines and backslashes in them
-- included.
pub args_new-arg_escape :
    (arg : Bytes) (rest : List Bytes) (more : Bytes)
    → All (All IsSendable) (arg ∷ rest)
    → suc (length (joined arg rest)) ≤ line_limit
    → (net_read_line (joined arg rest ++ newline ∷ more) ≡ (false, joined arg rest, more))
      × (args_new (c_str (joined arg rest)) ≡ some (arg ∷ rest))
unfolding args_new
args_new-arg_escape arg rest more h fits =
    let in_line = joined-IsInLine arg rest h in
    (
      net_read_line-line (joined arg rest) more (weaken (λ c p. p.1) _ in_line)
          (weaken (λ c p. p.2) _ in_line) fits,
      rw (c_str-same (joined arg rest) in_line) (args_on-joined arg rest []),
    )
