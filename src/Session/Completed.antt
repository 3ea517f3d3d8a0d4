-- ===== src/Session/Completed.antt =====
-- What is known when a step of a handler has gone on (source_codes/stardictd/src/daemon.cpp).
use stardictd.Base.{
  ℕ, Bool, true, false, List, [], ◌∷◌, ◌≡◌, refl, sym, ap, ◌∙◌, Option, none, some, Bytes, arith,
  get_elem?, codes,
}
use stardictd.Conf.{Conf}
use stardictd.Db.{Conn, Row}
use stardictd.Db
use stardictd.Session.{
  Server, Session, Outcome, goes, returns, exits, undefined, M, Done, ◌>>=◌, refuse_if, reply,
  code_denied, conf_str, conf_int, column, first_row, result_or_refuse, daemon_printf, stop, crash,
}
use stardictd.Session.Database.{
  connect, init_database, run_query, store_result, ask_result, connect_or_refuse, query_or_refuse,
}

abbrev state_of : {S A : Type 0} → S → Outcome S A → S
state_of d (goes a s) = s
state_of d _ = d

abbrev value_of : {S A : Type 0} → A → Outcome S A → A
value_of d (goes a s) = a
value_of d _ = d

pub goes-injective : {S A : Type 0} (a b : A) (s t : S) → goes a s ≡ goes b t → (a ≡ b) × (s ≡ t)
goes-injective a b s t e = (ap (value_of a) e, ap (state_of s) e)

module _ {D L : Type 0} where
  pub >>=-goes :
      {A B : Type 0} (m : M D L A) (f : A → M D L B) (s : Session D L) (b : B) (t : Session D L)
      → (◌>>=◌ m f) s ≡ goes b t
      → (a : A) × (u : Session D L) × (m s ≡ goes a u) × (f a u ≡ goes b t)
  >>=-goes {A} {B} m f s b t e = by_outcome (m s) refl e
    where
      by_outcome :
          (o : Outcome (Session D L) A)
          → m s ≡ o
          → elim o [
            | goes a s' ↦ f a s'
            | returns s' ↦ returns s'
            | exits s' ↦ exits s'
            | undefined ↦ undefined
          ]
            ≡ goes b t
          → (a : A) × (u : Session D L) × (m s ≡ goes a u) × (f a u ≡ goes b t)
      by_outcome (goes a u) h k = (a, u, h, k)
      by_outcome (returns u) h k = absurd (cc k)
      by_outcome (exits u) h k = absurd (cc k)
      by_outcome undefined h k = absurd (cc k)

  -- A refusal ends the handler.
  told-goes :
      {A : Type 0} (line : Bytes) (s : Session D L) (a : A) (t : Session D L)
      → (◌>>=◌ (daemon_printf line) (λ _. stop)) s ≡ goes a t
      → ⊥
  unfolding stop
  told-goes line s a t e =
      let (x, u, said, ended) = >>=-goes (daemon_printf line) (λ _. stop) s a t e in cc ended

  pub refuse_if-goes :
      (c : Bool) (line : Bytes) (s : Session D L) (a : Done) (t : Session D L)
      → refuse_if c line s ≡ goes a t
      → (c ≡ false) × (t ≡ s)
  unfolding refuse_if
  refuse_if-goes true line s a t e = absurd (told-goes line s a t e)
  refuse_if-goes false line s a t e = (refl, sym (goes-injective tt a s t e).1)

  pub column-goes :
      (i : ℕ) (row : Row) (s : Session D L) (a : Bytes) (t : Session D L)
      → column i row s ≡ goes a t
      → (get_elem? row i ≡ some (some a)) × (t ≡ s)
  unfolding column crash
  column-goes i row s a t e = by_cell (get_elem? row i) refl
    where
      by_cell :
          (o : Option (Option Bytes))
          → get_elem? row i ≡ o
          → (get_elem? row i ≡ some (some a)) × (t ≡ s)
      by_cell none h = absurd (ground (arith, e, h))
      by_cell (some none) h = absurd (ground (arith, e, h))
      by_cell (some (some b)) h =
          let same : goes b s ≡ goes a t = rw (h, column) at e in
          (
            h ∙ ap (λ x. some (some x)) (goes-injective b a s t same).0,
            sym (goes-injective b a s t same).1,
          )

  pub first_row-goes :
      (rows : List Row) (line : Bytes) (s : Session D L) (a : Row) (t : Session D L)
      → first_row rows line s ≡ goes a t
      → (rest : List Row) × (rows ≡ a ∷ rest) × (t ≡ s)
  unfolding first_row
  first_row-goes [] line s a t e = absurd (told-goes line s a t e)
  first_row-goes (row ∷ rows) line s a t e =
      let (row_is, state_is) = goes-injective row a s t e in
      (rows, ap (λ x. x ∷ rows) row_is, sym state_is)

module _ {D L : Type 0} (server : Server D L) where
  pub query_or_refuse-goes :
      (sql line : Bytes) (s : Session D L) (a : Done) (t : Session D L)
      → query_or_refuse server sql line s ≡ goes a t
      → (c : Conn D) × (Db.query server.mysql sql s.conn ≡ (false, c)) × (t ≡ record s { conn = c })
  unfolding run_query
  query_or_refuse-goes sql line s a t e = by_call (Db.query server.mysql sql s.conn) refl
    where
      by_call :
          (r : Bool × Conn D)
          → Db.query server.mysql sql s.conn ≡ r
          → (c : Conn D) × (Db.query server.mysql sql s.conn ≡ (false, c))
            × (t ≡ record s { conn = c })
      by_call (failed, c) h =
          let asked : refuse_if failed line (record s { conn = c }) ≡ goes a t = rw h at e in
          let (fine, same) = refuse_if-goes failed line _ a t asked in
          (c, h ∙ ap (λ x. (x, c)) fine, same)

  pub ask_result-goes :
      (line : Bytes) (s : Session D L) (rows : List Row) (t : Session D L)
      → ask_result server line s ≡ goes rows t
      → (c : Conn D) × (Db.get_result server.mysql s.conn ≡ (some rows, c))
        × (t ≡ record s { conn = c })
  unfolding store_result result_or_refuse
  ask_result-goes line s rows t e = by_call (Db.get_result server.mysql s.conn) refl
    where
      by_call :
          (r : Option (List Row) × Conn D)
          → Db.get_result server.mysql s.conn ≡ r
          → (c : Conn D) × (Db.get_result server.mysql s.conn ≡ (some rows, c))
            × (t ≡ record s { conn = c })
      by_call (none, c) h = absurd (told-goes line (record s { conn = c }) rows t (rw h at e))
      by_call (some found, c) h =
          let same : goes found (record s { conn = c }) ≡ goes rows t = rw h at e in
          let (rows_are, state_is) = goes-injective _ _ _ _ same in
          (c, h ∙ ap (λ x. (some x, c)) rows_are, sym state_is)

  -- Connecting changes the settings' map, by the keys that are looked up, and the connection.
  abbrev refusal : Bytes
  refusal = reply code_denied (codes "Connect to MySQL failed!")

  pub connect_or_refuse-goes :
      (s : Session D L) (a : Done) (t : Session D L)
      → connect_or_refuse server s ≡ goes a t
      → (f : Conf) × (c : Conn D) × (t ≡ record s { conf = f; conn = c })
  unfolding init_database connect conf_str conf_int
  connect_or_refuse-goes s a t e =
      let (failed, u, connected, told) =
        >>=-goes (init_database server) (λ failed. refuse_if failed refusal) s a t e in
      let (fine, same) = refuse_if-goes failed refusal u a t told in
      let reached = state_of s (init_database server s) in
      (reached.conf, reached.conn, same ∙ sym (ap (state_of s) connected))
