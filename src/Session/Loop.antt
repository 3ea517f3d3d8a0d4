-- ===== src/Session/Loop.antt =====
-- The loop over the lines of a connection (`_handleconn` of source_codes/stardictd/src/daemon.cpp)
-- needs no more rounds than there are bytes.
use stardictd.Base.{
  ℕ, zero, suc, ◌+◌, ◌<◌, false, [], ◌∷◌, ◌++◌, ◌≡◌, inl, inr, refl, Bytes, arith, length,
  Bool-cases, ◌==◌,
}
use stardictd.Net.{read_on, net_read_line}
use stardictd.Session.{Server, Session, Outcome, goes, returns, exits, undefined, M, Done, ◌>>◌}
use stardictd.Session.Dispatch.{handle_line, serve}

-- A line that is read takes a byte or more.
read_on-shorter :
    (input : Bytes) (n : ℕ) (buf : Bytes)
    → (read_on input n buf).0 ≡ false
    → length (read_on input n buf).2 < length input
unfolding read_on
read_on-shorter [] n buf h = absurd (cc h)
read_on-shorter (c ∷ input) n buf h = elim (Bool-cases (c == 13)) [
  | inl e ↦ ground (arith, h, read_on-shorter input (n + 1) buf)
  | inr e ↦ ground (arith, h, read_on-shorter input (n + 1) (buf ++ c ∷ []))
]

module _ {D L : Type 0} (server : Server D L) where
  same_behind :
      (o : Outcome (Session D L) Done) (k k' : M D L Done)
      → ((s : Session D L) → k s ≡ k' s)
      → (s : Session D L) → (◌>>◌ (λ _. o) k) s ≡ (◌>>◌ (λ _. o) k') s
  same_behind (goes a s') k k' h s = h s'
  same_behind (returns s') k k' h s = refl
  same_behind (exits s') k k' h s = refl
  same_behind undefined k k' h s = refl

  -- Once there are more rounds than bytes, one more changes nothing: a connection is never cut off by
  -- the fuel.
  pub serve_enough :
      (fuel fuel' : ℕ) (input : Bytes) (s : Session D L)
      → length input < fuel
      → length input < fuel'
      → serve server fuel input s ≡ serve server fuel' input s
  unfolding serve
  serve_enough zero fuel' input s h h' = absurd (omega arith)
  serve_enough (suc fuel) zero input s h h' = absurd (omega arith)
  serve_enough (suc fuel) (suc fuel') input s h h' =
      let rest = (net_read_line input).2 in
      elim (Bool-cases (net_read_line input).0) [
        | inl e ↦ rw e refl
        | inr e ↦
            let shorter : length rest < length input =
              unfold net_read_line in read_on-shorter input 0 [] e in
            rw e (
              same_behind (handle_line server (net_read_line input).1 s) (serve server fuel rest)
                (serve server fuel' rest)
                (λ s'. serve_enough fuel fuel' rest s' (omega arith) (omega arith)) s)
      ]
