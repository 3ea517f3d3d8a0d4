-- ===== src/Session/Takeover.antt =====
-- A whole connection (`_handleconn` of source_codes/stardictd/src/daemon.cpp): nobody becomes root
-- without the key.
use stardictd.Base.{
  ℕ, zero, suc, Bool, true, false, List, ◌++◌, ◌≡◌, ◌⊎◌, inl, inr, refl, ap, ◌∙◌, Option, none,
  some, Bytes, arith, codes, if◌then◌else◌,
}
use stardictd.Net.{net_read_line}
use stardictd.Command.{args_new, c_str}
use stardictd.Session.{
  Server, Session, Outcome, goes, returns, exits, undefined, Done, call, crash, ◌>>◌,
}
use stardictd.Session.Requests.{Request, auth, parse_request}
use stardictd.Session.Dispatch.{execute, handle_words, handle_line, serve}
use stardictd.Session.Auth.{salted, root}
use stardictd.Session.Frame.{After}
use stardictd.Session.Authority.{NoNewRoot, ProvesRoot, IsRootKey, value}
use stardictd.Session.Authority.Handlers.{execute-Step}

module _ {D L : Type 0} (server : Server D L) where
  -- One of the lines that the fuel allows to read is `auth root` with the key that belongs to the
  -- state `s`: the one made of its stamp and of its root password, which is not empty.
  pub data Asked (s : Session D L) : ℕ → Bytes → Type 0 where
    this_line :
        {fuel : ℕ} {input buf rest : Bytes} {args : List Bytes}
        → net_read_line input ≡ (false, buf, rest)
        → args_new (c_str buf) ≡ some args
        → ProvesRoot server s (parse_request args)
        → Asked s (suc fuel) input
    later_line :
        {fuel : ℕ} {input buf rest : Bytes}
        → net_read_line input ≡ (false, buf, rest)
        → Asked s fuel rest
        → Asked s (suc fuel) input

  earlier_key :
      (s s' : Session D L) (key : Bytes)
      → NoNewRoot s s'
      → IsRootKey server s' key
      → IsRootKey server s key
  earlier_key s s' key (stamp, values, _) is = record {
    password_set = λ e. is.password_set (values (codes "root-user/password") ∙ e);
    key_matches =
        is.key_matches
        ∙ ap
            (λ t.
              server.md5_hex (t ++ server.md5_hex (salted (value s' (codes "root-user/password")))))
            stamp
        ∙ ap (λ t. server.md5_hex (s.daemon_stamp ++ server.md5_hex (salted t)))
            (values (codes "root-user/password"));
  }

  earlier_proof :
      (s s' : Session D L) (r : Request)
      → NoNewRoot s s'
      → ProvesRoot server s' r
      → ProvesRoot server s r
  earlier_proof s s' (auth user key) same (is, proved) = (is, earlier_key s s' key same proved)
  earlier_proof s s' _ same proved = proved

  earlier :
      (s s' : Session D L) {fuel : ℕ} {input : Bytes}
      → NoNewRoot s s'
      → Asked s' fuel input
      → Asked s fuel input
  earlier s s' same (this_line read words proved) =
      this_line read words (earlier_proof s s' _ same proved)
  earlier s s' same (later_line read asked) = later_line read (earlier s s' same asked)

  -- What a line and then the rest of the connection come to, from what the line comes to.
  behind :
      (fuel : ℕ) (rest : Bytes) (s s' : Session D L) (o : Outcome (Session D L) Done)
      → After NoNewRoot s o
      → ((s1 : Session D L)
          → serve server fuel rest s1 ≡ exits s'
          → s'.auth_user ≡ root
          → (s1.auth_user ≡ root) ⊎ Asked s1 fuel rest)
      → (◌>>◌ (λ _. o) (serve server fuel rest)) s ≡ exits s'
      → s'.auth_user ≡ root
      → (s.auth_user ≡ root) ⊎ Asked s fuel rest
  behind fuel rest s s' (goes a s1) (stamp, values, keeps) later ends is = elim (later s1 ends is) [
    | inl is1 ↦ inl (keeps is1)
    | inr asked ↦ inr (earlier s s1 (stamp, values, keeps) asked)
  ]
  behind fuel rest s s' (exits s1) (stamp, values, keeps) later ends is =
      inl (keeps (ground (arith, ends, is)))
  behind fuel rest s s' (returns s1) same later ends is = absurd (cc ends)
  behind fuel rest s s' undefined same later ends is = absurd (cc ends)

  -- What a request comes to as a line, whose `return` only ends the line.
  after_line :
      (s : Session D L) (o : Outcome (Session D L) Done)
      → After NoNewRoot s o
      → After NoNewRoot s (call (λ _. o) s)
  unfolding call
  after_line s (goes a s') h = h
  after_line s (returns s') h = h
  after_line s (exits s') h = h
  after_line s undefined h = h

  -- `asked` says whether this line or a later one is the request.
  handled :
      (fuel : ℕ) (rest : Bytes) (s s' : Session D L) (words : Option (List Bytes)) (P : Type 0)
      → ((args : List Bytes) → words ≡ some args → ProvesRoot server s (parse_request args) → P)
      → (Asked s fuel rest → P)
      → ((s1 : Session D L)
          → serve server fuel rest s1 ≡ exits s'
          → s'.auth_user ≡ root
          → (s1.auth_user ≡ root) ⊎ Asked s1 fuel rest)
      → (handle_words server words >> serve server fuel rest) s ≡ exits s'
      → s'.auth_user ≡ root
      → (s.auth_user ≡ root) ⊎ P
  unfolding handle_words call crash
  handled fuel rest s s' none P this next later ends is = absurd (cc ends)
  handled fuel rest s s' (some args) P this next later ends is =
      elim (execute-Step server (parse_request args) s) [
        | inl proved ↦ inr (this args refl proved)
        | inr after ↦
            elim (behind fuel rest s s' (call (execute server (parse_request args)) s)
              (after_line s (execute server (parse_request args) s) after) later ends is) [
                | inl before ↦ inl before
                | inr asked ↦ inr (next asked)
              ]
      ]

  read :
      (fuel : ℕ) (input : Bytes) (s s' : Session D L) (line : Bool × Bytes × Bytes)
      → net_read_line input ≡ line
      → ((s1 : Session D L)
          → serve server fuel line.2 s1 ≡ exits s'
          → s'.auth_user ≡ root
          → (s1.auth_user ≡ root) ⊎ Asked s1 fuel line.2)
      → (if line.0 then exits s else (handle_line server line.1 >> serve server fuel line.2) s)
        ≡ exits s'
      → s'.auth_user ≡ root
      → (s.auth_user ≡ root) ⊎ Asked s (suc fuel) input
  unfolding handle_line
  read fuel input s s' (true, buf, rest) found later ends is = inl (ground (arith, ends, is))
  read fuel input s s' (false, buf, rest) found later ends is =
      handled fuel rest s s' (args_new (c_str buf)) (Asked s (suc fuel) input)
        (λ args words. this_line found words) (later_line found) later ends is

  -- A connection that ends with `root` as its user was root's when it began, or one of its lines is
  -- `auth root` with the key made of the process's stamp and of the root password, which is not
  -- empty. Since the input is any, this holds of the user behind each line too.
  pub serve-Asked :
      (fuel : ℕ) (input : Bytes) (s s' : Session D L)
      → serve server fuel input s ≡ exits s'
      → s'.auth_user ≡ root
      → (s.auth_user ≡ root) ⊎ Asked s fuel input
  unfolding serve
  serve-Asked zero input s s' ends is = inl (ground (arith, ends, is))
  serve-Asked (suc fuel) input s s' ends is =
      read fuel input s s' (net_read_line input) refl
        (λ s1 ends1 is1. serve-Asked fuel (net_read_line input).2 s1 s' ends1 is1) ends is
