-- ===== src/Tests/Connections.antt =====
-- Lines and writes at concrete inputs (source_codes/stardictd/src/net.cpp and daemon.cpp,
-- source_codes/stardict-client/src/command.cpp).
use stardictd.Base.{ℕ, ◌+◌, List, [], ◌∷◌, ◌++◌, ◌≡◌, refl, false, Bytes, codes, some, none, arith}
use stardictd.Base.Int.{ℤ, pos, negsuc}
use stardictd.Base.Decimal.{print_int, atoi, print_nat, put_digits, read_digits}
use stardictd.Net.{net_read_line, net_write_str}
use stardictd.Net.Writes.{net_write_str-whole}
use stardictd.Command.{args_new, args_on, arg_escape, c_str, newline}
use stardictd.Command.RoundTrip.{joined, args_new-arg_escape}
use stardictd.Session.Requests.{Request, parse_request}
use stardictd.Client.{lookup, make_command}
use stardictd.Client.Requests.{text_of, parse_request-make_command}

decimals : (print_int (negsuc 122) ≡ codes "-123") × (atoi (codes " -123x") ≡ negsuc 122)
unfolding print_int put_digits print_nat atoi read_digits
decimals = (refl, refl)

-- A socket that takes one byte at a time, and counts.
abbrev slow : Bytes → ℕ → ℤ × ℕ
slow left w = (pos 1, w + 1)

net_write_str-whole_example :
    (w : ℕ) × (net_write_str slow (codes "abc") [] 0 ≡ some (false, codes "abc" ++ 0 ∷ [], w))
net_write_str-whole_example = net_write_str-whole slow (λ c left w. (0, refl)) (codes "abc") [] 0

abbrev phrase : Bytes
phrase = codes "a\\b c" ++ 10 ∷ codes "d"

words : args_new (codes "lookup a\\ b 5") ≡ some (codes "lookup" ∷ codes "a b" ∷ codes "5" ∷ [])
unfolding args_new args_on
words = refl

lone_backslash : args_new (codes "lookup \\") ≡ none
unfolding args_new args_on
lone_backslash = refl

args_new-arg_escape_example :
    (net_read_line (joined (codes "query") (phrase ∷ []) ++ newline ∷ codes "quit")
      ≡ (false, joined (codes "query") (phrase ∷ []), codes "quit"))
    × (args_new (c_str (joined (codes "query") (phrase ∷ []))) ≡ some (codes "query" ∷ phrase ∷ []))
unfolding arg_escape
args_new-arg_escape_example =
    args_new-arg_escape (codes "query") (phrase ∷ []) (codes "quit") (ground arith) (omega arith)

abbrev same_bytes : Bytes → Bytes
same_bytes s = s

parse_request-make_command_example :
    (args : List Bytes) × (net_read_line
        (make_command same_bytes same_bytes (codes "<1>") (lookup phrase) ++ codes "quit")
      ≡ (false, text_of same_bytes same_bytes (codes "<1>") (lookup phrase), codes "quit"))
    × (args_new (c_str (text_of same_bytes same_bytes (codes "<1>") (lookup phrase))) ≡ some args)
    × (parse_request args ≡ Request.lookup phrase (pos 30))
unfolding arg_escape
parse_request-make_command_example =
    parse_request-make_command same_bytes same_bytes (codes "<1>") (lookup phrase) (codes "quit")
      (ground arith) (omega arith)
