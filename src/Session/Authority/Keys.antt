-- ===== src/Session/Authority/Keys.antt =====
-- The login of a user keeps others from becoming root (source_codes/stardictd/src/daemon.cpp).
use stardictd.Base.{
  Bool, true, false, [], ◌∷◌, ◌++◌, ◌≡◌, ◌≢◌, ◌⊎◌, inl, inr, refl, Bytes, arith, Bool-cases, eqb,
  eqb_iff, codes, if◌then◌else◌,
}
use stardictd.Base.Decimal.{print_nat, put_digits}
use stardictd.Conf.{get_str}
use stardictd.Session.{
  Server, Session, returns, set_auth_user, daemon_printf, refuse_if, conf_str, stop, reply,
  code_denied,
}
use stardictd.Session.Requests.{auth}
use stardictd.Session.Auth.{
  root, guest, salted, auth_root, auth_other, auth_guest, check_key, root_proof,
}
use stardictd.Session.Frame.{After, Keeps, Keeps-bind, Keeps-refuse_if, Keeps-daemon_printf}
use stardictd.Session.Kept
use stardictd.Session.Authority.{
  get_str_again, value, NoNewRoot, NoNewRoot-IsFrame, becomes, IsRootKey, ProvesRoot,
}

module _ {D L : Type 0} (server : Server D L) where
  check_key-NoNewRoot :
      (user key proof : Bytes) → user ≢ root → Keeps NoNewRoot (check_key server user key proof)
  unfolding check_key
  check_key-NoNewRoot user key proof other =
      Keeps-bind NoNewRoot-IsFrame (Keeps-refuse_if NoNewRoot-IsFrame _ _) λ _.
        Keeps-bind NoNewRoot-IsFrame (Keeps-daemon_printf NoNewRoot-IsFrame _) λ _.
          Keeps-bind NoNewRoot-IsFrame (becomes user other)
            λ _. Kept.Keeps-enter NoNewRoot-IsFrame server _

  auth_other-NoNewRoot :
      (user key : Bytes) → user ≢ root → Keeps NoNewRoot (auth_other server user key)
  unfolding auth_other
  auth_other-NoNewRoot user key other =
      Keeps-bind NoNewRoot-IsFrame (Kept.Keeps-user_proof NoNewRoot-IsFrame server user)
        λ proof. check_key-NoNewRoot user key proof other

  -- With no root password, or by a wrong key, `auth root` answers that it is denied.
  auth_root_denied :
      (key : Bytes) (s : Session D L)
      → (value s (codes "root-user/password") ≡ [])
        ⊎ (eqb key (
              server.md5_hex
                (s.daemon_stamp ++ server.md5_hex (salted (value s (codes "root-user/password")))))
            ≡ false)
      → auth_root server key s
        ≡ returns (record s {
          conf = (get_str s.conf (codes "root-user/password")).0;
          sent = s.sent ++ reply code_denied (codes "auth denied") ∷ [];
        })
  unfolding auth_root root_proof conf_str check_key refuse_if daemon_printf stop print_nat
      put_digits
  auth_root_denied key s h = ground arith

  auth_root-NoNewRoot :
      (key : Bytes) (s : Session D L)
      → IsRootKey server s key ⊎ After NoNewRoot s (auth_root server key s)
  auth_root-NoNewRoot key s =
      let password = value s (codes "root-user/password") in
      let sum = server.md5_hex (s.daemon_stamp ++ server.md5_hex (salted password)) in
      elim (Bool-cases (eqb password [])) [
        | inl empty ↦ denied (inl ((eqb_iff password []).0 empty))
        | inr set ↦ elim (Bool-cases (eqb key sum)) [
          | inl right ↦ inl (record {
            password_set = λ empty. absurd (ground (arith, set, empty));
            key_matches = (eqb_iff key sum).0 right;
          })
          | inr wrong ↦ denied (inr wrong)
        ]
      ]
    where
      denied :
          (value s (codes "root-user/password") ≡ [])
            ⊎ (eqb key (
                  server.md5_hex (
                    s.daemon_stamp
                    ++ server.md5_hex (salted (value s (codes "root-user/password")))))
                ≡ false)
          → IsRootKey server s key ⊎ After NoNewRoot s (auth_root server key s)
      denied h = inr (rw (auth_root_denied key s h) (refl, λ q. get_str_again s.conf _ q, λ h. h))

  pub guests : Keeps NoNewRoot (set_auth_user {D = D} {L = L} guest)
  guests = becomes guest λ e. absurd (ground (arith, e))

  pub routed :
      (user key : Bytes) (s : Session D L) (is_guest is_root : Bool)
      → eqb user root ≡ is_root
      → ProvesRoot server s (auth user key)
        ⊎ After NoNewRoot s (
            (if is_guest
                then auth_guest server
                else (if is_root then auth_root server key else auth_other server user key))
              s)
  unfolding auth_guest
  routed user key s true is_root e = inr ((Keeps-daemon_printf NoNewRoot-IsFrame _).kept s)
  routed user key s false true e = elim (auth_root-NoNewRoot key s) [
    | inl proved ↦ inl ((eqb_iff user root).0 e, proved)
    | inr after ↦ inr after
  ]
  routed user key s false false e =
      inr ((auth_other-NoNewRoot user key λ is. absurd (ground (arith, e, is))).kept s)
