-- ===== src/Net/Lines.antt =====
-- Lines as they arrive (source_codes/stardictd/src/net.cpp).
use stardictd.Base.{
  ℕ, suc, ◌+◌, ◌≤◌, [], ◌∷◌, ◌++◌, append_assoc, append-nil, ◌≡◌, ◌≢◌, arith, Bytes, false, length,
  All,
}
use stardictd.Net.{read_on, net_read_line, line_limit}

read_on-line :
    (s more buf : Bytes) (n : ℕ)
    → All (λ c. c ≢ 10) s
    → All (λ c. c ≢ 13) s
    → suc (n + length s) ≤ line_limit
    → read_on (s ++ 10 ∷ more) n buf ≡ (false, buf ++ s, more)
unfolding read_on
read_on-line [] more buf n no_lf no_cr fits = ground (arith, append-nil buf)
read_on-line (c ∷ s) more buf n no_lf no_cr fits = ground (
  arith,
  append_assoc buf (c ∷ []) s,
  read_on-line s more (buf ++ c ∷ []) (n + 1) no_lf.1 no_cr.1 (omega arith),
)

pub net_read_line-line :
    (s more : Bytes)
    → All (λ c. c ≢ 10) s
    → All (λ c. c ≢ 13) s
    → suc (length s) ≤ line_limit
    → net_read_line (s ++ 10 ∷ more) ≡ (false, s, more)
unfolding net_read_line
net_read_line-line s more no_lf no_cr fits = read_on-line s more [] 0 no_lf no_cr (omega arith)
